-- ===== src/Lockshow.antt =====
-- SOLNS/HW05/hw05soln.c: show which bytes of a file are locked.
pub mod Split
pub mod Tests
use cs507_unix_programming.Prelude.{
  ℕ, zero, suc, ◌+◌, List, [], ◌∷◌, ◌++◌, Bool, Bytes, if◌then◌else◌, ltb, ◌==◌, get_or, set, drop,
  length, replicate, c_string,
}

abbrev pub bufsize : ℕ
bufsize = 512

-- The static arrays `buf`, `Lbuf` and `Ubuf`.
pub record Buffers : Type 0 where
  pub buf : Bytes
  pub lbuf : Bytes
  pub ubuf : Bytes

abbrev pub empty_buffers : Buffers
empty_buffers = record {
  buf = replicate bufsize 0;
  lbuf = replicate bufsize 0;
  ubuf = replicate bufsize 0;
}

-- What a round of the loop over `ibuf` does with the character `c`.
abbrev pub store : (newline locked : Bool) → (ibuf c : ℕ) → Buffers → Buffers
store newline locked ibuf c b =
    if newline
    then b
    else (if locked
        then record b { lbuf = set b.lbuf ibuf c; ubuf = set b.ubuf ibuf b' ' }
        else record b { lbuf = set b.lbuf ibuf b' '; ubuf = set b.ubuf ibuf c })

abbrev pub split_byte : (locked : ℕ → Bool) → (offset ibuf : ℕ) → Buffers → Buffers
split_byte locked offset ibuf b =
    let c = get_or b.buf ibuf 0 in store (c == b'\n') (locked (offset + ibuf)) ibuf c b

-- The loop over `ibuf`, with the rounds left. `locked` is is_writelock of one byte.
unfoldable pub split : (locked : ℕ → Bool) → (offset ibuf left : ℕ) → Buffers → Buffers
split locked offset ibuf zero b = b
split locked offset ibuf (suc n) b =
    split locked offset (ibuf + 1) n (split_byte locked offset ibuf b)

-- `buflen= strlen(buf); if(buflen < 80) buflen= 80;`
abbrev pub buflen_of : Bytes → ℕ
buflen_of buf = if ltb (length (c_string buf)) 80 then 80 else length (c_string buf)

-- fgets(3): the line and its NUL over the old bytes.
abbrev pub fgets_into : Bytes → Bytes → Bytes
fgets_into text buf = text ++ 0 ∷ drop (length text + 1) buf

pub data Out : Type 0 where
  dashes : ℕ → Out  -- behind nine blanks
  locked_line : Bytes → Out
  unlocked_line : Bytes → Out
  warning : Out  -- "unable to open file"

pub record Run : Type 0 where
  pub exits : Bool
  pub lines : List Out
  pub buflen : ℕ
  pub buffers : Buffers

abbrev pub run : Bool → List Out → ℕ → Buffers → Run
run e l n b = record { exits = e; lines = l; buflen = n; buffers = b }

abbrev pub lines_then : List Out → Run → Run
lines_then l r = run r.exits (l ++ r.lines) r.buflen r.buffers

-- The loop over the lines of a file. `buflen` is that of the last line read; `ftell` gives the
-- new offset.
unfoldable pub show_file : (locked : ℕ → Bool) → (offset buflen : ℕ) → List Bytes → Buffers → Run
unfolding split
show_file locked offset buflen [] b = run Bool.false (dashes buflen ∷ []) buflen b
show_file locked offset buflen (text ∷ more) b =
    let b1 = record b { buf = fgets_into text b.buf } in
    let n = buflen_of b1.buf in
    let b2 = split locked offset 0 n b1 in
    lines_then (dashes n ∷ locked_line (c_string b2.lbuf) ∷ unlocked_line (c_string b2.ubuf) ∷ [])
      (show_file locked (offset + length text) n more b2)

-- A file of the command line, as access, open, fgets and lock_test answer.
pub record File : Type 0 where
  pub readable : Bool
  pub opens : Bool
  pub text : List Bytes
  pub locked : ℕ → Bool

abbrev pub and_then : Run → (ℕ → Buffers → Run) → Run
and_then r k = lines_then r.lines (k r.buflen r.buffers)

-- The loop of `main` over its arguments. `buflen` is that of the last line read, of whichever file;
-- before the first line it is not set.
unfoldable pub main : (buflen : ℕ) → List File → Buffers → Run
unfolding show_file
main buflen [] b = run Bool.false [] buflen b
main buflen (f ∷ fs) b =
    let shown = and_then (show_file f.locked 0 buflen f.text b) (λ n b'. main n fs b') in
    let skipped = lines_then (warning ∷ []) (main buflen fs b) in
    if f.readable then (if f.opens then shown else run Bool.true [] buflen b) else skipped
