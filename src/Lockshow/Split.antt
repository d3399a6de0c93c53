-- ===== src/Lockshow/Split.antt =====
-- Which bytes of a line the two output lines hold.
use cs507_unix_programming.Prelude.{
  ℕ, zero, suc, ◌+◌, ◌<◌, [], ◌∷◌, Bool, true, false, Bytes, ◌==◌, get_or, set, length, ◌≡◌, ◌≢◌,
  refl, ap, arith, ◌∙◌, sym,
}
use cs507_unix_programming.Lockshow.{Buffers, split, split_byte, store}

get_or-set : (xs : Bytes) (i v : ℕ) → i < length xs → get_or (set xs i v) i 0 ≡ v
get_or-set [] i v h = absurd (omega (arith, h))
get_or-set (x ∷ xs) zero v h = refl
get_or-set (x ∷ xs) (suc i) v h = get_or-set xs i v (omega (arith, h))

get_or-set_other : (xs : Bytes) (i j v : ℕ) → i ≢ j → get_or (set xs i v) j 0 ≡ get_or xs j 0
get_or-set_other [] i j v h = refl
get_or-set_other (x ∷ xs) zero zero v h = absurd (h refl)
get_or-set_other (x ∷ xs) zero (suc j) v h = refl
get_or-set_other (x ∷ xs) (suc i) zero v h = refl
get_or-set_other (x ∷ xs) (suc i) (suc j) v h = get_or-set_other xs i j v (λ e. h (ap suc e))

length-set : (xs : Bytes) (i v : ℕ) → length (set xs i v) ≡ length xs
length-set [] i v = refl
length-set (x ∷ xs) zero v = refl
length-set (x ∷ xs) (suc i) v = ap suc (length-set xs i v)

-- What the three arrays hold at a position.
abbrev pub line_at : Buffers → ℕ → ℕ × ℕ × ℕ
line_at b i = (get_or b.buf i 0, get_or b.lbuf i 0, get_or b.ubuf i 0)

abbrev sizes : Buffers → ℕ × ℕ
sizes b = (length b.lbuf, length b.ubuf)

store-other :
    (newline locked : Bool) (ibuf c : ℕ) (b : Buffers) (i : ℕ)
    → ibuf ≢ i
    → line_at (store newline locked ibuf c b) i ≡ line_at b i
store-other true locked ibuf c b i h = refl
store-other false true ibuf c b i h =
    rw (get_or-set_other b.lbuf ibuf i c h) (rw (get_or-set_other b.ubuf ibuf i b' ' h) refl)
store-other false false ibuf c b i h =
    rw (get_or-set_other b.lbuf ibuf i b' ' h) (rw (get_or-set_other b.ubuf ibuf i c h) refl)

store-sizes :
    (newline locked : Bool) (ibuf c : ℕ) (b : Buffers)
    → sizes (store newline locked ibuf c b) ≡ sizes b
store-sizes true locked ibuf c b = refl
store-sizes false true ibuf c b =
    rw (length-set b.lbuf ibuf c) (rw (length-set b.ubuf ibuf b' ') refl)
store-sizes false false ibuf c b =
    rw (length-set b.lbuf ibuf b' ') (rw (length-set b.ubuf ibuf c) refl)

-- What a byte c shows as in the two lines.
abbrev pub divided : Bool → ℕ → ℕ × ℕ × ℕ
divided true c = (c, c, b' ')
divided false c = (c, b' ', c)

store-here :
    (locked : Bool) (ibuf : ℕ) (b : Buffers)
    → ibuf < length b.lbuf
    → ibuf < length b.ubuf
    → line_at (store false locked ibuf (get_or b.buf ibuf 0) b) ibuf
      ≡ divided locked (get_or b.buf ibuf 0)
store-here true ibuf b hl hu =
    rw (get_or-set b.lbuf ibuf (get_or b.buf ibuf 0) hl) (rw (get_or-set b.ubuf ibuf b' ' hu) refl)
store-here false ibuf b hl hu =
    rw (get_or-set b.lbuf ibuf b' ' hl) (rw (get_or-set b.ubuf ibuf (get_or b.buf ibuf 0) hu) refl)

split_byte-other :
    (locked : ℕ → Bool) (offset ibuf : ℕ) (b : Buffers) (i : ℕ)
    → ibuf ≢ i
    → line_at (split_byte locked offset ibuf b) i ≡ line_at b i
split_byte-other locked offset ibuf b i h =
    store-other (get_or b.buf ibuf 0 == b'\n') (locked (offset + ibuf)) ibuf (get_or b.buf ibuf 0) b
      i h

split_byte-sizes :
    (locked : ℕ → Bool) (offset ibuf : ℕ) (b : Buffers)
    → sizes (split_byte locked offset ibuf b) ≡ sizes b
split_byte-sizes locked offset ibuf b =
    store-sizes (get_or b.buf ibuf 0 == b'\n') (locked (offset + ibuf)) ibuf (get_or b.buf ibuf 0) b

split_byte-here :
    (locked : ℕ → Bool) (offset ibuf : ℕ) (b : Buffers)
    → (get_or b.buf ibuf 0 == b'\n') ≡ false
    → ibuf < length b.lbuf
    → ibuf < length b.ubuf
    → line_at (split_byte locked offset ibuf b) ibuf
      ≡ divided (locked (offset + ibuf)) (get_or b.buf ibuf 0)
split_byte-here locked offset ibuf b e hl hu =
    ap (λ f. line_at (store f (locked (offset + ibuf)) ibuf (get_or b.buf ibuf 0) b) ibuf) e
    ∙ store-here (locked (offset + ibuf)) ibuf b hl hu

split-before :
    (locked : ℕ → Bool) (offset ibuf n : ℕ) (b : Buffers) (i : ℕ)
    → i < ibuf
    → line_at (split locked offset ibuf n b) i ≡ line_at b i
unfolding split
split-before locked offset ibuf zero b i h = refl
split-before locked offset ibuf (suc n) b i h =
    split-before locked offset (ibuf + 1) n (split_byte locked offset ibuf b) i (omega (arith, h))
    ∙ split_byte-other locked offset ibuf b i (λ e. omega (arith, h, e))

split-divides_from :
    (locked : ℕ → Bool) (offset ibuf n : ℕ) (b : Buffers) (i k : ℕ)
    → i ≡ ibuf + k
    → k < n
    → (get_or b.buf i 0 == b'\n') ≡ false
    → i < length b.lbuf
    → i < length b.ubuf
    → line_at (split locked offset ibuf n b) i ≡ divided (locked (offset + i)) (get_or b.buf i 0)
unfolding split
split-divides_from locked offset ibuf zero b i k p h e hl hu = absurd (omega (arith, h))
split-divides_from locked offset ibuf (suc n) b i zero p h e hl hu =
    let here : i ≡ ibuf = omega (arith, p) in
    split-before locked offset (ibuf + 1) n (split_byte locked offset ibuf b) i (omega (arith, p))
    ∙ (rw here (
        split_byte-here locked offset ibuf b (ap (λ j. get_or b.buf j 0 == b'\n') (sym here) ∙ e)
          (omega (arith, hl, here)) (omega (arith, hu, here))))
split-divides_from locked offset ibuf (suc n) b i (suc k) p h e hl hu =
    let other = split_byte-other locked offset ibuf b i (λ q. omega (arith, p, q)) in
    let s = split_byte-sizes locked offset ibuf b in
    split-divides_from locked offset (ibuf + 1) n (split_byte locked offset ibuf b) i k
      (omega (arith, p)) (omega (arith, h)) (ap (λ t. t.0 == b'\n') other ∙ e)
      (rw (ap (λ t. t.0) s) hl) (rw (ap (λ t. t.1) s) hu)
    ∙ ap (λ t. divided (locked (offset + i)) t.0) other

-- For a position below buflen and inside both arrays whose character is no newline, the loop
-- leaves the line as it is, and puts the character into the locked line and a blank into the
-- unlocked one if the byte of the file is locked, else the other way round.
pub split-divides :
    (locked : ℕ → Bool) (offset buflen : ℕ) (b : Buffers) (i : ℕ)
    → i < buflen
    → (get_or b.buf i 0 == b'\n') ≡ false
    → i < length b.lbuf
    → i < length b.ubuf
    → line_at (split locked offset 0 buflen b) i ≡ divided (locked (offset + i)) (get_or b.buf i 0)
split-divides locked offset buflen b i h e hl hu =
    split-divides_from locked offset 0 buflen b i i (omega arith) h e hl hu
