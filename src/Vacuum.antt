-- ===== src/Vacuum.antt =====
-- SOLNS/HW02/vacuum.c: the frames of an animation on a terminal.
pub mod Frames
use cs507_unix_programming.Prelude.{
  ℕ, zero, suc, ◌+◌, ◌-◌, ◌%◌, ◌*◌, List, [], ◌∷◌, ◌++◌, Option, none, some, Bool, Bytes,
  if◌then◌else◌, ltb, ◌==◌, leb, get_or, replicate, length, set,
}

-- `COLS+VACLEN`, which expands to 80-VACLEN+VACLEN.
abbrev pub array_size : ℕ
array_size = 80

abbrev pub vacuum_right : Bytes
vacuum_right = b'\\' ∷ b'=' ∷ b'=' ∷ b'<' ∷ []

abbrev pub vacuum_left : Bytes
vacuum_left = b'>' ∷ b'=' ∷ b'=' ∷ b'/' ∷ []

-- `goright` and `goleft`.
pub record Strings : Type 0 where
  pub goright : List Bytes
  pub goleft : List Bytes

-- `for(col= 1; col < cols; ++col)`, with the rounds left.
unfoldable pub build : (cols col left : ℕ) → Strings → Strings
build cols col zero s = s
build cols col (suc n) s = build cols (col + 1) n (record {
  goright = set s.goright col (b' ' ∷ get_or s.goright (col - 1) []);
  goleft = set s.goleft (cols - 1 - col) (b' ' ∷ get_or s.goleft (cols - col) []);
})

unfoldable pub strings : (cols : ℕ) → Strings
unfolding build
strings cols = build cols 1 (cols - 1) (record {
  goright = set (replicate array_size []) 0 vacuum_right;
  goleft = set (replicate array_size []) (cols - 1) vacuum_left;
})

-- What is written to the terminal.
pub data Out : Type 0 where
  cursor : (row : ℕ) → Out  -- ESC [ row ; 1 H
  clear : Out  -- ESC [ K
  text : Bytes → Out

-- The loop over `col` in each direction, with the rounds left.
unfoldable pub go_right : Strings → (row col left : ℕ) → List Out
go_right s row col zero = []
go_right s row col (suc n) =
    cursor (row + 1) ∷ text (get_or s.goright col []) ∷ go_right s row (col + 1) n

unfoldable pub go_left : Strings → (row col left : ℕ) → List Out
go_left s row col zero = []
go_left s row col (suc n) =
    cursor (row + 1) ∷ text (get_or s.goleft col []) ∷ clear ∷ go_left s row (col + 1) n

abbrev pub burp : Bytes
burp =
    vacuum_right
    ++ b' ' ∷ b'o' ∷ b'*' ∷ b'8' ∷ b'o' ∷ b' ' ∷ b'B' ∷ b'U' ∷ b'R' ∷ b'P' ∷ b'!' ∷ b' ' ∷ b'o'
      ∷ b'.' ∷ b'8' ∷ b'o' ∷ b'\n' ∷ []

-- `for(row= 0; row < rows; ++row)`, with the rounds left, and the last line.
unfoldable pub draw : Strings → (cols row left : ℕ) → List Out
unfolding go_right go_left
draw s cols row zero = cursor row ∷ clear ∷ text burp ∷ []
draw s cols row (suc n) =
    (if ltb 0 row then cursor row ∷ clear ∷ [] else [])
    ++ cursor (row + 1)
      ∷ ((if row % 2 == 0 then go_right s row 0 cols else go_left s row 0 cols)
          ++ cursor row ∷ clear ∷ draw s cols (row + 1) n)

pub data Run : Type 0 where
  undefined : Run  -- writes behind `goright`
  shows : List Out → Run

-- `rows` and `cols`: both are read from `argv[1]`, and keep their defaults where that is no
-- number. `VACLEN` is taken off; at 0 or below the default is taken.
abbrev pub at_least_one : (n default : ℕ) → ℕ
at_least_one n default = if ltb n 1 then default else n

abbrev pub scanned : Option ℕ → (default : ℕ) → ℕ
scanned none default = default
scanned (some n) default = n

unfoldable pub rows_of : (scan : Bytes → Option ℕ) → (argv : List Bytes) → ℕ
rows_of scan (name ∷ first ∷ second ∷ more) = at_least_one (scanned (scan first) 25) 25
rows_of scan argv = 25

unfoldable pub cols_of : (scan : Bytes → Option ℕ) → (argv : List Bytes) → ℕ
cols_of scan (name ∷ first ∷ second ∷ more) = at_least_one (scanned (scan first) 76 - 4) 76
cols_of scan argv = 76

-- `main`
unfoldable pub main : (scan : Bytes → Option ℕ) → (argv : List Bytes) → Run
unfolding draw strings
main scan argv =
    let cols = cols_of scan argv in
    if leb cols array_size
    then shows (draw (strings cols) cols 0 (rows_of scan argv))
    else undefined
