-- ===== src/Opening/Permissions.antt =====
-- The permissions that the letters are meant to give, and the bits that the loop sets.
use cs507_unix_programming.Prelude.{
  ℕ, ◌+◌, ◌<◌, [], ◌∷◌, Bool, false, ◌&&◌, ◌||◌, none, some, Bytes, ◌==◌, ◌≡◌, refl, ap, arith, sym,
  ◌∙◌, inl, inr,
}
use cs507_unix_programming.Opening.{Selected, nothing, strchr, select, permission, permit, letters}
use cs507_unix_programming.Opening.Described.{
  access_of, letters-flags, permission-cases, letters-silent, some-inj, none-some,
}

-- Whether the one letter stands directly before the other.
abbrev pub adjacent : (x y : ℕ) → Bytes → Bool
adjacent x y [] = false
adjacent x y (a ∷ []) = false
adjacent x y (a ∷ b ∷ rest) = (a == x && b == y) || adjacent x y (b ∷ rest)

-- The permissions that the pairs of letters are for, each with the bit that the loop gives it.
abbrev asked_by : (x bit k : ℕ) → Bytes → Bool
asked_by x bit k rest =
    (k == bit && adjacent x b'u' rest)
    || ((k == bit + 3 && adjacent x b'g' rest) || (k == bit + 6 && adjacent x b'o' rest))

abbrev pub asked : (k : ℕ) → Bytes → Bool
asked k rest = asked_by b'R' 8 k rest || (asked_by b'W' 7 k rest || asked_by b'X' 6 k rest)

adjacent-skip :
    (x y a : ℕ) (rest : Bytes) → (a == x) ≡ false → adjacent x y (a ∷ rest) ≡ adjacent x y rest
adjacent-skip x y a [] h = refl
adjacent-skip x y a (b ∷ rest) h = ground (arith, h)

adjacent-pair :
    (x y a b : ℕ) (rest : Bytes)
    → (b == x) ≡ false
    → adjacent x y (a ∷ b ∷ rest) ≡ (a == x && b == y) || adjacent x y rest
adjacent-pair x y a b rest h = ap (λ t. (a == x && b == y) || t) (adjacent-skip x y b rest h)

asked_by-skip :
    (x bit k a : ℕ) (rest : Bytes)
    → (a == x) ≡ false
    → asked_by x bit k (a ∷ rest) ≡ asked_by x bit k rest
asked_by-skip x bit k a rest h =
    rw (adjacent-skip x b'u' a rest h, adjacent-skip x b'g' a rest h, adjacent-skip x b'o' a rest h)
      refl

-- The bits that one pair of letters sets.
abbrev pair_bits : (x bit k a b : ℕ) → Bool
pair_bits x bit k a b =
    a == x
    && ((k == bit && b == b'u') || ((k == bit + 3 && b == b'g') || (k == bit + 6 && b == b'o')))

asked_by-pair :
    (x bit k a b : ℕ) (rest : Bytes)
    → (b == x) ≡ false
    → asked_by x bit k (a ∷ b ∷ rest) ≡ pair_bits x bit k a b || asked_by x bit k rest
asked_by-pair x bit k a b rest h =
    rw
      (
        adjacent-pair x b'u' a b rest h,
        adjacent-pair x b'g' a b rest h,
        adjacent-pair x b'o' a b rest h,
      )
      (spread (a == x) (k == bit) (k == bit + 3) (k == bit + 6) (b == b'u') (b == b'g') (b == b'o')
        (adjacent x b'u' rest) (adjacent x b'g' rest) (adjacent x b'o' rest))
  where
    spread :
        (h i j l u g o p q r : Bool)
        → (i && ((h && u) || p)) || ((j && ((h && g) || q)) || (l && ((h && o) || r)))
          ≡ (h && ((i && u) || ((j && g) || (l && o)))) || ((i && p) || ((j && q) || (l && r)))
    spread h i j l u g o p q r = ground arith

select-mode : (arg : Bytes) (a : ℕ) (s : Selected) (k : ℕ) → (select arg a s).mode k ≡ s.mode k
select-mode arg a s k = ground arith

select-asked : (a k : ℕ) (rest : Bytes) → permission a ≡ none → asked k (a ∷ rest) ≡ asked k rest
select-asked a k rest h =
    rw
      (
        asked_by-skip b'R' 8 k a rest (ground (arith, h)),
        asked_by-skip b'W' 7 k a rest (ground (arith, h)),
        asked_by-skip b'X' 6 k a rest (ground (arith, h)),
      )
      refl

permit-bits :
    (bit a b k : ℕ) (s : Selected)
    → permission a ≡ some bit
    → (permit bit b s).warnings ≡ 0
    → (permit bit b s).mode k
      ≡ s.mode k || (pair_bits b'R' 8 k a b || (pair_bits b'W' 7 k a b || pair_bits b'X' 6 k a b))
permit-bits bit a b k s h w = ground arith

permit-asked :
    (bit a b k : ℕ) (rest : Bytes) (s : Selected)
    → permission a ≡ some bit
    → (permit bit b s).warnings ≡ 0
    → (permit bit b s).mode k || asked k rest ≡ s.mode k || asked k (a ∷ b ∷ rest)
permit-asked bit a b k rest s h w =
    rw
      (
        asked_by-pair b'R' 8 k a b rest (ground (arith, w)),
        asked_by-pair b'W' 7 k a b rest (ground (arith, w)),
        asked_by-pair b'X' 6 k a b rest (ground (arith, w)),
      )
      (join (s.mode k) ((permit bit b s).mode k) (pair_bits b'R' 8 k a b) (pair_bits b'W' 7 k a b)
        (pair_bits b'X' 6 k a b) (asked_by b'R' 8 k rest) (asked_by b'W' 7 k rest)
        (asked_by b'X' 6 k rest) (permit-bits bit a b k s h w))
  where
    join :
        (m n A B C x y z : Bool)
        → n ≡ m || (A || (B || C))
        → n || (x || (y || z)) ≡ m || ((A || x) || ((B || y) || (C || z)))
    join m n A B C x y z h = ground (arith, h)

select-asked_one : (a k : ℕ) → asked k (a ∷ []) ≡ false
select-asked_one a k = ground arith

-- All bits that the loop sets, where it warns of nothing.
pub letters-mode :
    (arg rest : Bytes) (s : Selected) {t : Selected} (k : ℕ)
    → letters arg rest s ≡ some t
    → t.warnings ≡ 0
    → t.mode k ≡ s.mode k || asked k rest
unfolding letters
letters-mode arg [] s k h w = ground (arith, some-inj h)
letters-mode arg (a ∷ []) s {t} k h w = elim (permission-cases a) [
  | inl e ↦
      let l = some-inj (rw (e, letters) at h) in
      ap (λ (u : Selected). u.mode k) (sym l)
      ∙ select-mode arg a s k
      ∙ ground (arith, select-asked_one a k)
  | inr (bit, e) ↦ absurd (none-some (rw (e, letters) at h))
]
letters-mode arg (a ∷ b ∷ rest) s {t} k h w = elim (permission-cases a) [
  | inl e ↦
      letters-mode arg (b ∷ rest) (select arg a s) k (rw (e, letters) at h) w
      ∙ ap (λ m. m || asked k (b ∷ rest)) (select-mode arg a s k)
      ∙ ap (λ m. s.mode k || m) (sym (select-asked a k (b ∷ rest) e))
  | inr (bit, e) ↦
      letters-mode arg rest (permit bit b s) k (rw (e, letters) at h) w
      ∙ permit-asked bit a b k rest s e
          (letters-silent arg rest (permit bit b s) (rw (e, letters) at h) w)
]

-- If open.c warns of none of the letters and does not read behind them, then in any order of
-- the letters: the access is reading and writing with both r and w, writing with w alone and
-- else reading, each other flag is set exactly if its letter is there, and a bit of the mode is
-- set exactly if a pair of letters asks for it, the owner at the bit of S_IRUSR, S_IWUSR or
-- S_IXUSR, g three and o six bits above.
pub letters-described :
    (arg : Bytes) (k : ℕ) {t : Selected}
    → letters arg arg nothing ≡ some t
    → t.warnings ≡ 0
    → (t.access ≡ access_of arg)
      × (t.append ≡ strchr arg b'a')
      × (t.creat ≡ strchr arg b'c')
      × (t.excl ≡ strchr arg b'e')
      × (t.trunc ≡ strchr arg b't')
      × (t.nonblock ≡ strchr arg b'b')
      × (t.mode k ≡ asked k arg)
letters-described arg k h w =
    let f = letters-flags arg h w in
    (f.0, f.1, f.2, f.3, f.4, f.5, letters-mode arg arg nothing k h w)

permit-low :
    (bit a b k : ℕ) (s : Selected)
    → k < 6
    → permission a ≡ some bit
    → (permit bit b s).mode k ≡ s.mode k
permit-low bit a b k s l h = ground arith

letters-low :
    (arg rest : Bytes) (s : Selected) {t : Selected} (k : ℕ)
    → k < 6
    → letters arg rest s ≡ some t
    → t.mode k ≡ s.mode k
unfolding letters
letters-low arg [] s k l h = ap (λ (u : Selected). u.mode k) (sym (some-inj h))
letters-low arg (a ∷ []) s k l h = elim (permission-cases a) [
  | inl e ↦
      ap (λ (u : Selected). u.mode k) (sym (some-inj (rw (e, letters) at h)))
      ∙ select-mode arg a s k
  | inr (bit, e) ↦ absurd (none-some (rw (e, letters) at h))
]
letters-low arg (a ∷ b ∷ rest) s k l h = elim (permission-cases a) [
  | inl e ↦
      letters-low arg (b ∷ rest) (select arg a s) k l (rw (e, letters) at h) ∙ select-mode arg a s k
  | inr (bit, e) ↦
      letters-low arg rest (permit bit b s) k l (rw (e, letters) at h) ∙ permit-low bit a b k s l e
]

-- Whatever the letters, if open.c does not read behind them, it sets none of the six lowest
-- bits of the mode, those of the permissions for the group and for others.
pub letters-withholds :
    (arg : Bytes) (k : ℕ) {t : Selected}
    → letters arg arg nothing ≡ some t
    → k < 6
    → t.mode k ≡ false
letters-withholds arg k h l = letters-low arg arg nothing k l h
