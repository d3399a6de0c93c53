-- ===== src/Signals/Sigmasker.antt =====
-- `main` of SOLNS/HW08/sigmasker.c, after the handlers are installed.
use cs507_unix_programming.Prelude.{
  ℕ, zero, suc, ◌+◌, List, [], ◌∷◌, ◌++◌, Bool, Option, none, some, Bytes, if◌then◌else◌, ◌==◌,
  str_eq, map,
}
use cs507_unix_programming.Signals.Log.{Log, sighandler, recorded, reset, empty_log, handlers}
use cs507_unix_programming.Signals.Interceptor.{quit}

-- strtok(3) with the delimiter " ": the words of a line.
pub word_then : Bytes → List Bytes → List Bytes
word_then [] ws = ws
word_then (c ∷ w) ws = (c ∷ w) ∷ ws

pub split_words : Bytes → Bytes → List Bytes
unfolding word_then
split_words w [] = word_then w []
split_words w (c ∷ s) =
    let stop = word_then w (split_words [] s) in
    let go_on = split_words (w ++ c ∷ []) s in if c == b' ' then stop else go_on

unfoldable pub tokens : Bytes → List Bytes
unfolding split_words
tokens = split_words []

-- `buf[strlen(buf)-1]= '\0'`; `none`: it writes in front of an empty `buf`.
unfoldable pub chop : Bytes → Option Bytes
chop [] = none
chop (c ∷ []) = some []
chop (c ∷ d ∷ s) = elim (chop (d ∷ s)) [ none ↦ none | some t ↦ some (c ∷ t) ]

-- The numbers that are put into the mask. A word that sscanf(3) does not read leaves `isig` as
-- it was.
unfoldable pub mask_of : (scan : Bytes → Option ℕ) → (isig : ℕ) → List Bytes → List ℕ
mask_of scan isig [] = []
mask_of scan isig (w ∷ ws) = elim (scan w) [
  | none ↦ isig ∷ mask_of scan isig ws
  | some n ↦ n ∷ mask_of scan n ws
]

-- `isig` after that loop.
unfoldable pub last_isig : (scan : Bytes → Option ℕ) → (isig : ℕ) → List Bytes → ℕ
last_isig scan isig [] = isig
last_isig scan isig (w ∷ ws) = elim (scan w) [
  | none ↦ last_isig scan isig ws
  | some n ↦ last_isig scan n ws
]

-- The lines of `show` and `check`: `for(isig= 1; isig <= 31; ++isig) if(sigismember(…))`.
unfoldable pub members : (isin : ℕ → Bool) → (isig left : ℕ) → List ℕ
members isin isig zero = []
members isin isig (suc n) =
    let rest = members isin (isig + 1) n in if isin isig then isig ∷ rest else rest

-- strtok(3) ends `buf` behind its first word; the blanks in front of it stay.
unfoldable pub blanks : Bytes → Bytes
blanks [] = []
blanks (c ∷ s) = if c == b' ' then c ∷ blanks s else []

-- What the program does besides recording signals.
pub data Item : Type 0 where
  blocks : List ℕ → Item  -- sigprocmask, SIG_BLOCK
  unblocks : List ℕ → Item  -- sigprocmask, SIG_UNBLOCK
  in_mask : ℕ → Item
  is_pending : ℕ → Item
  rcvd : ℕ → Item

abbrev pub cmd_mask : Bytes
cmd_mask = b'm' ∷ b'a' ∷ b's' ∷ b'k' ∷ []

abbrev pub cmd_unmask : Bytes
cmd_unmask = b'u' ∷ b'n' ∷ cmd_mask

abbrev pub cmd_show : Bytes
cmd_show = b's' ∷ b'h' ∷ b'o' ∷ b'w' ∷ []

abbrev pub cmd_check : Bytes
cmd_check = b'c' ∷ b'h' ∷ b'e' ∷ b'c' ∷ b'k' ∷ []

-- The chain of `strcmp(token, …)`, and `isig` behind it. `isin` is what the kernel answers.
unfoldable pub command :
    (scan : Bytes → Option ℕ)
    → (isin : ℕ → Bool) → (isig : ℕ) → (token : Bytes) → (words : List Bytes) → List Item × ℕ
unfolding mask_of last_isig members
command scan isin isig token words =
    if str_eq token cmd_mask
    then (blocks (mask_of scan isig words) ∷ [], last_isig scan isig words)
    else if str_eq token cmd_unmask
    then (unblocks (mask_of scan isig words) ∷ [], last_isig scan isig words)
    else if str_eq token cmd_show
    then (map in_mask (members isin 1 31), 32)
    else if str_eq token cmd_check
    then (map is_pending (members isin 1 31), 32)
    else ([], isig)

-- A signal that is handled; or a return of fgets(3), with a line and what the kernel answers to
-- `show` and `check`, or null.
pub data Event : Type 0 where
  signal : ℕ → Event
  line : Bytes → (isin : ℕ → Bool) → Event
  no_line : Event

pub data Ending : Type 0 where
  quits reading undefined exits : Ending

pub record Run : Type 0 where
  pub ending : Ending
  pub items : List Item

abbrev pub run : Ending → List Item → Run
run e l = record { ending = e; items = l }

abbrev pub items_then : List Item → Run → Run
items_then l r = run r.ending (l ++ r.items)

pub record Locals : Type 0 where
  pub log : Log
  pub buf : Bytes
  pub isig : ℕ

abbrev pub locals : Log → Bytes → ℕ → Locals
locals l b i = record { log = l; buf = b; isig = i }

-- The loop `while(1)`.
unfoldable pub mask_loop : (scan : Bytes → Option ℕ) → Locals → List Event → Run
mask_loop scan s [] = run reading []
mask_loop scan s (signal n ∷ es) = elim (sighandler s.log n) [
  | none ↦ run undefined []
  | some l ↦ mask_loop scan (locals l s.buf s.isig) es
]
mask_loop scan s (no_line ∷ es) = elim (chop s.buf) [
  | none ↦ run undefined []
  | some b ↦
      items_then (map rcvd (recorded s.log))
        (mask_loop scan (locals (reset s.log) b (s.log.count)) es)
]
mask_loop scan s (line text isin ∷ es) = elim (chop text) [
  | none ↦ run undefined []
  | some b ↦ if str_eq b quit then run quits [] else elim (tokens b) [
    | [] ↦ run undefined []
    | token ∷ words ↦
        let r = command scan isin s.isig token words in
        items_then r.0 (mask_loop scan (locals s.log (blanks b ++ token) r.1) es)
  ]
]

-- `main`; `stale` is what `buf` holds before the first fgets(3).
unfoldable pub main :
    (accepts : ℕ → Bool) → (scan : Bytes → Option ℕ) → (stale : Bytes) → List Event → Run
unfolding mask_loop blanks
main accepts scan stale es = elim (handlers accepts) [
  | none ↦ run exits []
  | some _ ↦ mask_loop scan (locals empty_log stale 32) es
]
