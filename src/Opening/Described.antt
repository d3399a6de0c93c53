-- ===== src/Opening/Described.antt =====
-- The loop over the letters and what the letters are meant to say.
use mathlib.Core.Path.{subst}
use cs507_unix_programming.Prelude.{
  ℕ, [], ◌∷◌, Bool, true, ◌||◌, Option, none, some, Bytes, if◌then◌else◌, ◌≡◌, refl, ap, arith, ◌∙◌,
  ◌⊎◌, inl, inr,
}
use cs507_unix_programming.Opening.{
  Selected, o_rdonly, o_wronly, o_rdwr, nothing, strchr, select, permission, permit, letters,
}

-- The access that the letters r and w ask for, in any order.
abbrev pub access_of : Bytes → ℕ
access_of arg = if strchr arg b'w' then (if strchr arg b'r' then o_rdwr else o_wronly) else o_rdonly

-- From the letters that are left and what was selected, to what is selected in the end.
pub record Described (arg : Bytes) (rest : Bytes) (s t : Selected) : Type 0 where
  pub silent : s.warnings ≡ 0
  pub append : t.append ≡ s.append || strchr rest b'a'
  pub creat : t.creat ≡ s.creat || strchr rest b'c'
  pub excl : t.excl ≡ s.excl || strchr rest b'e'
  pub trunc : t.trunc ≡ s.trunc || strchr rest b't'
  pub nonblock : t.nonblock ≡ s.nonblock || strchr rest b'b'
  pub access : t.access ≡ (if strchr rest b'r' || strchr rest b'w' then access_of arg else s.access)

pub select_lem :
    (arg : Bytes) (a : ℕ) (rest : Bytes) (s t : Selected)
    → permission a ≡ none
    → (strchr (a ∷ rest) b'r' ≡ true → strchr arg b'r' ≡ true)
    → (strchr (a ∷ rest) b'w' ≡ true → strchr arg b'w' ≡ true)
    → Described arg rest (select arg a s) t
    → Described arg (a ∷ rest) s t
select_lem arg a rest s t p hr hw d = record {
  silent = ground (arith, d.silent, d.silent);
  append = ground (arith, d.append, d.silent);
  creat = ground (arith, d.creat, d.silent);
  excl = ground (arith, d.excl, d.silent);
  trunc = ground (arith, d.trunc, d.silent);
  nonblock = ground (arith, d.nonblock, d.silent);
  access = ground (arith, d.access, d.silent);
}

pub permit_lem :
    (arg : Bytes) (bit a b : ℕ) (rest : Bytes) (s t : Selected)
    → permission a ≡ some bit
    → Described arg rest (permit bit b s) t
    → Described arg (a ∷ b ∷ rest) s t
permit_lem arg bit a b rest s t p d = record {
  silent = ground (arith, d.silent, d.silent);
  append = ground (arith, d.append, d.silent);
  creat = ground (arith, d.creat, d.silent);
  excl = ground (arith, d.excl, d.silent);
  trunc = ground (arith, d.trunc, d.silent);
  nonblock = ground (arith, d.nonblock, d.silent);
  access = ground (arith, d.access, d.silent);
}

pub permission-cases : (a : ℕ) → (permission a ≡ none) ⊎ ((bit : ℕ) × (permission a ≡ some bit))
permission-cases a = cases (permission a)
  where
    cases : (o : Option ℕ) → (o ≡ none) ⊎ ((bit : ℕ) × (o ≡ some bit))
    cases none = inl refl
    cases (some bit) = inr (bit, refl)

pub some-inj : {a b : Selected} → some a ≡ some b → a ≡ b
some-inj e = cc

pub none-some : {b : Selected} → none ≡ some b → ⊥
none-some e = cc

select-silent :
    (arg : Bytes) (a : ℕ) (s : Selected) → (select arg a s).warnings ≡ 0 → s.warnings ≡ 0
select-silent arg a s h = ground arith

permit-silent : (bit b : ℕ) (s : Selected) → (permit bit b s).warnings ≡ 0 → s.warnings ≡ 0
permit-silent bit b s h = ground arith

pub letters-silent :
    (arg rest : Bytes) (s : Selected) {t : Selected}
    → letters arg rest s ≡ some t
    → t.warnings ≡ 0
    → s.warnings ≡ 0
unfolding letters
letters-silent arg [] s h w = ground (arith, some-inj h)
letters-silent arg (a ∷ []) s {t} h w = elim (permission-cases a) [
  | inl e ↦
      let l = some-inj (rw (e, letters) at h) in
      select-silent arg a s (ap (λ (u : Selected). u.warnings) l ∙ w)
  | inr (bit, e) ↦ absurd (none-some (rw (e, letters) at h))
]
letters-silent arg (a ∷ b ∷ rest) s {t} h w = elim (permission-cases a) [
  | inl e ↦
      select-silent arg a s
        (letters-silent arg (b ∷ rest) (select arg a s) (rw (e, letters) at h) w)
  | inr (bit, e) ↦
      permit-silent bit b s (letters-silent arg rest (permit bit b s) (rw (e, letters) at h) w)
]

letters-Described :
    (arg rest : Bytes) (s : Selected) {t : Selected}
    → (strchr rest b'r' ≡ true → strchr arg b'r' ≡ true)
    → (strchr rest b'w' ≡ true → strchr arg b'w' ≡ true)
    → letters arg rest s ≡ some t
    → t.warnings ≡ 0
    → Described arg rest s t
unfolding letters
letters-Described arg [] s {t} hr hw h w = none_left (some-inj h)
  where
    none_left : s ≡ t → Described arg [] s t
    none_left e = subst (Described arg [] s) e (record {
      silent = ap (λ (u : Selected). u.warnings) e ∙ w;
      append = ground arith;
      creat = ground arith;
      excl = ground arith;
      trunc = ground arith;
      nonblock = ground arith;
      access = refl;
    })
letters-Described arg (a ∷ []) s {t} hr hw h w = elim (permission-cases a) [
  | inl e ↦
      select_lem arg a [] s t e hr hw
        (letters-Described arg [] (select arg a s) (λ k. cc) (λ k. cc) (rw (e, letters) at h) w)
  | inr (bit, e) ↦ absurd (none-some (rw (e, letters) at h))
]
letters-Described arg (a ∷ b ∷ rest) s {t} hr hw h w = elim (permission-cases a) [
  | inl e ↦ select_lem arg a (b ∷ rest) s t e hr hw (
      letters-Described arg (b ∷ rest) (select arg a s) (λ k. ground arith) (λ k. ground arith)
        (rw (e, letters) at h) w)
  | inr (bit, e) ↦ permit_lem arg bit a b rest s t e (
      letters-Described arg rest (permit bit b s) (λ k. ground arith) (λ k. ground arith)
        (rw (e, letters) at h) w)
]

-- From the first letter on.
pub letters-flags :
    (arg : Bytes) {t : Selected}
    → letters arg arg nothing ≡ some t
    → t.warnings ≡ 0
    → (t.access ≡ access_of arg)
      × (t.append ≡ strchr arg b'a')
      × (t.creat ≡ strchr arg b'c')
      × (t.excl ≡ strchr arg b'e')
      × (t.trunc ≡ strchr arg b't')
      × (t.nonblock ≡ strchr arg b'b')
letters-flags arg {t} h w =
    let d = letters-Described arg arg nothing (λ k. k) (λ k. k) h w in
    (
      d.access ∙ known (strchr arg b'r') (strchr arg b'w'),
      d.append,
      d.creat,
      d.excl,
      d.trunc,
      d.nonblock,
    )
  where
    known :
        (r w : Bool)
        → (if r || w then (if w then (if r then o_rdwr else o_wronly) else o_rdonly) else 0)
          ≡ (if w then (if r then o_rdwr else o_wronly) else o_rdonly)
    known r w = ground arith
