-- ===== src/Uplister/Ancestors.antt =====
-- Which directories are listed, and that the recursion ends.
use cs507_unix_programming.Prelude.{
  ℕ, zero, suc, ◌+◌, ◌<◌, List, [], ◌∷◌, ◌++◌, Option, none, some, Bytes, length, ◌≡◌, ◌≢◌, refl,
  ap, ◌∙◌, arith, All, sym, Option-cases, inl, inr, length-append,
}
use cs507_unix_programming.Uplister.{
  DirEntry, last_slash, up_lister, main, out_of_fuel, root, dirname_of,
}

-- What stands in front of a slash is shorter.
last_slash-shorter :
    (s : Bytes) {front back : Bytes} → last_slash s ≡ some (front, back) → length front < length s
unfolding last_slash
last_slash-shorter [] e = cc
last_slash-shorter (c ∷ s) {front} {back} e = elim (Option-cases (last_slash s)) [
  | inl here ↦ ground arith
  | inr ((f, b), below) ↦
      let shorter : length f < length s = last_slash-shorter s below in ground arith
]

ends_here :
    (opendir : Bytes → Option (List DirEntry)) (fuel : ℕ) (path dirname : Bytes) (depth : ℕ)
    → last_slash path ≡ none
    → (up_lister opendir (suc fuel) path dirname depth).ending ≢ out_of_fuel
unfolding up_lister
ends_here opendir fuel path dirname depth e q = ground arith

goes_on :
    (opendir : Bytes → Option (List DirEntry)) (fuel : ℕ) (path dirname front back : Bytes)
    (depth : ℕ)
    → last_slash path ≡ some (front, back)
    → (up_lister opendir fuel front (dirname_of front) (depth + 1)).ending ≢ out_of_fuel
    → (up_lister opendir (suc fuel) path dirname depth).ending ≢ out_of_fuel
unfolding up_lister
goes_on opendir fuel path dirname front back depth e h q = ground arith

up_lister-fuel :
    (opendir : Bytes → Option (List DirEntry)) (fuel : ℕ) (path dirname : Bytes) (depth : ℕ)
    → length path < fuel
    → (up_lister opendir fuel path dirname depth).ending ≢ out_of_fuel
up_lister-fuel opendir zero path dirname depth h = elim h [ ]
up_lister-fuel opendir (suc fuel) path dirname depth h = elim (Option-cases (last_slash path)) [
  | inl last ↦ ends_here opendir fuel path dirname depth last
  | inr ((front, back), e) ↦ goes_on opendir fuel path dirname front back depth e (
      up_lister-fuel opendir fuel front (dirname_of front) (depth + 1)
        (omega (arith, last_slash-shorter path e)))
]

-- A component of a path.
abbrev pub NoSlash : Bytes → Type 0
NoSlash = All (λ c. c ≢ b'/')

-- The path of a directory, its own name first.
abbrev pub path_of : List Bytes → Bytes
path_of [] = []
path_of (c ∷ cs) = path_of cs ++ b'/' ∷ c

-- The directory and all above it, up to the root.
abbrev pub ancestors : List Bytes → List Bytes
ancestors [] = root ∷ []
ancestors (c ∷ cs) = path_of (c ∷ cs) ∷ ancestors cs

last_slash-none : (c : Bytes) → NoSlash c → last_slash c ≡ none
unfolding last_slash
last_slash-none [] h = refl
last_slash-none (x ∷ c) h = ground (arith, last_slash-none c h.1, h.0)

last_slash-append : (front c : Bytes) → NoSlash c → last_slash (front ++ b'/' ∷ c) ≡ some (front, c)
unfolding last_slash
last_slash-append [] c h = rw (last_slash-none c h)
last_slash-append (x ∷ front) c h = rw (last_slash-append front c h)

-- One call, where the directory can be opened.
up_lister-some :
    (opendir : Bytes → Option (List DirEntry)) (fuel : ℕ) (path dirname front back : Bytes)
    (depth : ℕ)
    → opendir dirname ≢ none
    → last_slash path ≡ some (front, back)
    → (up_lister opendir (suc fuel) path dirname depth).visited
      ≡ dirname ∷ (up_lister opendir fuel front (dirname_of front) (depth + 1)).visited
unfolding up_lister
up_lister-some opendir fuel path dirname front back depth o e = ground (arith, o)

up_lister-none :
    (opendir : Bytes → Option (List DirEntry)) (fuel : ℕ) (path dirname : Bytes) (depth : ℕ)
    → opendir dirname ≢ none
    → last_slash path ≡ none
    → (up_lister opendir (suc fuel) path dirname depth).visited ≡ dirname ∷ []
unfolding up_lister
up_lister-none opendir fuel path dirname depth o e = ground (arith, o)

dirname_of-append : (front c : Bytes) (x : ℕ) → dirname_of (front ++ x ∷ c) ≡ front ++ x ∷ c
dirname_of-append [] c x = refl
dirname_of-append (y ∷ front) c x = refl

module _ (opendir : Bytes → Option (List DirEntry)) (opens : (d : Bytes) → opendir d ≢ none) where
  visits :
      (cs : List Bytes) (fuel depth : ℕ)
      → All NoSlash cs
      → length (path_of cs) < fuel
      → (up_lister opendir fuel (path_of cs) (dirname_of (path_of cs)) depth).visited ≡ ancestors cs
  visits cs zero depth h l = elim l [ ]
  visits [] (suc fuel) depth h l =
      up_lister-none opendir fuel [] root depth (opens root) (last_slash-none [] tt)
  visits (c ∷ cs) (suc fuel) depth h l =
      up_lister-some opendir fuel (path_of (c ∷ cs)) (dirname_of (path_of (c ∷ cs))) (path_of cs) c
        depth (opens _) (last_slash-append (path_of cs) c h.0)
      ∙ ap
          (λ d.
            d ∷ (up_lister opendir fuel (path_of cs) (dirname_of (path_of cs)) (depth + 1)).visited)
          (dirname_of-append (path_of cs) c b'/')
      ∙ ap (◌∷◌ (path_of (c ∷ cs)))
          (visits cs fuel (depth + 1) h.1 (omega (arith, length-append (path_of cs) (b'/' ∷ c))))

  -- If every directory can be opened and no component has a slash, then for a working directory
  -- with at least one component the directories listed are it, those above it in ascending
  -- order, and the root.
  pub main-visited :
      (c : Bytes) (cs : List Bytes)
      → All NoSlash (c ∷ cs)
      → (main opendir (some (path_of (c ∷ cs)))).visited ≡ ancestors (c ∷ cs)
  unfolding main
  main-visited c cs h =
      ap (λ d. (up_lister opendir (suc (length (path_of (c ∷ cs)))) (path_of (c ∷ cs)) d 0).visited)
        (sym (dirname_of-append (path_of cs) c b'/'))
      ∙ visits (c ∷ cs) (suc (length (path_of (c ∷ cs)))) 0 h (omega arith)

-- For every working directory, whatever can be opened, the recursion ends before the fuel does.
pub main-ends :
    (opendir : Bytes → Option (List DirEntry)) (path : Bytes)
    → (main opendir (some path)).ending ≢ out_of_fuel
unfolding main
main-ends opendir path = up_lister-fuel opendir (suc (length path)) path path 0 (omega arith)
