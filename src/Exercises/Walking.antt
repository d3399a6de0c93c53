-- ===== src/Exercises/Walking.antt =====
-- Which directories uplister.c of hw4 opens, and which streams it closes.
use cs507_unix_programming.Prelude.{
  ℕ, zero, suc, ◌+◌, ◌<◌, List, [], ◌∷◌, ◌++◌, Option, none, some, Bytes, length, append-nil,
  if◌then◌else◌, ◌==◌, ◌≡◌, refl, ap, ◌∙◌, arith,
}
use cs507_unix_programming.Exercises.Walk.{
  size, trav_lim, pointer_size, Entry, Host, Event, opens, shows, closes, complains, completes,
  undefined, getcwd, lines, parent, print_con, main,
}

-- The paths that are opened.
abbrev pub opened : List Event → List Bytes
opened [] = []
opened (opens path ∷ events) = path ∷ opened events
opened (shows line ∷ events) = opened events
opened (closes stream ∷ events) = opened events
opened (complains ∷ events) = opened events
opened (completes ∷ events) = opened events
opened (undefined ∷ events) = opened events

-- How often a stream is closed.
abbrev pub closings : (stream : ℕ) → List Event → ℕ
closings k [] = 0
closings k (opens path ∷ events) = closings k events
closings k (shows line ∷ events) = closings k events
closings k (closes stream ∷ events) = (if stream == k then 1 else 0) + closings k events
closings k (complains ∷ events) = closings k events
closings k (completes ∷ events) = closings k events
closings k (undefined ∷ events) = closings k events

opened-append : (es fs : List Event) → opened (es ++ fs) ≡ opened es ++ opened fs
opened-append [] fs = refl
opened-append (opens path ∷ es) fs = ap (◌∷◌ path) (opened-append es fs)
opened-append (shows line ∷ es) fs = opened-append es fs
opened-append (closes stream ∷ es) fs = opened-append es fs
opened-append (complains ∷ es) fs = opened-append es fs
opened-append (completes ∷ es) fs = opened-append es fs
opened-append (undefined ∷ es) fs = opened-append es fs

closings-append :
    (k : ℕ) (es fs : List Event) → closings k (es ++ fs) ≡ closings k es + closings k fs
closings-append k [] fs = omega arith
closings-append k (opens path ∷ es) fs = closings-append k es fs
closings-append k (shows line ∷ es) fs = closings-append k es fs
closings-append k (closes stream ∷ es) fs = omega (arith, closings-append k es fs)
closings-append k (complains ∷ es) fs = closings-append k es fs
closings-append k (completes ∷ es) fs = closings-append k es fs
closings-append k (undefined ∷ es) fs = closings-append k es fs

opened-lines : (cnt : ℕ) (entries : List Entry) → opened (lines cnt entries) ≡ []
opened-lines cnt [] = refl
opened-lines cnt (e ∷ entries) = ground (arith, opened-lines cnt entries)

closings-lines : (k cnt : ℕ) (entries : List Entry) → closings k (lines cnt entries) ≡ 0
closings-lines k cnt [] = refl
closings-lines k cnt (e ∷ entries) = ground (arith, closings-lines k cnt entries)

-- At least one directory can be opened at each path.
abbrev pub Opens : Host → Type 0
Opens host = (path : Bytes) → (entries : List Entry) × (host.opendir path ≡ some entries)

-- The path with so many steps up behind it.
abbrev pub ups : (cwd : Bytes) → (n : ℕ) → List Bytes
ups cwd zero = []
ups cwd (suc n) = (cwd ++ parent) ∷ ups (cwd ++ parent) n

abbrev pub same : Bytes → ℕ → List Bytes
same path zero = []
same path (suc n) = path ∷ same path n

opened-print_con :
    (host : Host) (left cnt : ℕ) (cwd : Bytes) (entries : List Entry)
    → length cwd + 3 < size
    → opened (print_con host (suc left) cnt cwd (some entries))
      ≡ (cwd ++ parent)
        ∷ opened (
            print_con host left
              (cnt + 1)
              (getcwd host pointer_size (cwd ++ parent))
              (host.opendir (cwd ++ parent)))
unfolding print_con
opened-print_con host left cnt cwd entries h =
    opened-append (lines cnt entries) _ ∙ rw (opened-lines cnt entries) (ground (arith, h))

closings_later :
    (k : ℕ) (host : Host) (left cnt : ℕ) (cwd : Bytes) (ptr : Option (List Entry))
    → k < cnt
    → closings k (print_con host left cnt cwd ptr) ≡ 0
unfolding print_con
closings_later k host left cnt cwd none h = refl
closings_later k host zero cnt cwd (some entries) h = refl
closings_later k host (suc left) cnt cwd (some entries) h =
    closings-append k (lines cnt entries) _
    ∙ ground (
      arith,
      h,
      closings-lines k cnt entries,
      closings_later k host left (cnt + 1) (getcwd host pointer_size (cwd ++ parent))
          (host.opendir (cwd ++ parent)) (omega (arith, h)),
    )

-- A working directory of less than eight bytes goes into the buffer again.
opened_short :
    (host : Host) (left cnt : ℕ)
    → length host.working < pointer_size
    → Opens host
    → (entries : List Entry)
    → opened (print_con host left cnt host.working (some entries))
      ≡ same (host.working ++ parent) left
opened_short host zero cnt h o entries = unfold print_con in refl
opened_short host (suc left) cnt h o entries =
    opened-print_con host left cnt host.working entries (omega (arith, h))
    ∙ ap (◌∷◌ (host.working ++ parent)) (
        rw (kept (host.working ++ parent), (o (host.working ++ parent)).1)
          (opened_short host left (cnt + 1) h o (o (host.working ++ parent)).0))
  where
    kept : (buffer : Bytes) → getcwd host pointer_size buffer ≡ host.working
    kept buffer = ground (arith, h)

main_cwd : (host : Host) → length host.working < size → getcwd host size [] ≡ host.working
main_cwd host h = ground (arith, h)

opened-main :
    (host : Host) (entries : List Entry)
    → length host.working < size
    → host.opendir host.working ≡ some entries
    → opened (main host)
      ≡ host.working ∷ opened (print_con host trav_lim 0 host.working (some entries))
unfolding main
opened-main host entries h e =
    rw (main_cwd host h, e)
      (ap (◌∷◌ host.working) (
        opened-append (print_con host trav_lim 0 host.working (some entries)) (closes 0 ∷ [])
        ∙ append-nil (opened (print_con host trav_lim 0 host.working (some entries)))))

-- If the path of the working directory has less than 8 bytes and every directory can be opened,
-- uplister.c of hw4 opens the working directory once and then its parent four times.
pub walk_short :
    (host : Host)
    → length host.working < pointer_size
    → Opens host
    → opened (main host) ≡ host.working ∷ same (host.working ++ parent) 4
walk_short host h o =
    opened-main host (o host.working).0 (omega (arith, h)) (o host.working).1
    ∙ ap (◌∷◌ host.working) (opened_short host 4 0 h o (o host.working).0)

-- If the directory that getcwd gives can be opened, uplister.c of hw4 closes its stream exactly
-- twice.
pub first_closed_twice :
    (host : Host) (entries : List Entry)
    → host.opendir (getcwd host size []) ≡ some entries
    → closings 0 (main host) ≡ 2
unfolding main print_con
first_closed_twice host entries e =
    let cwd = getcwd host size [] in
    rw e (
      closings-append 0 (print_con host 4 0 cwd (some entries)) (closes 0 ∷ [])
      ∙ ap (λ n. n + 1) (closings-append 0 (lines 0 entries) _)
      ∙ ground (
        arith,
        closings-lines 0 0 entries,
        closings_later 0 host 3 1 (getcwd host pointer_size (cwd ++ parent))
            (host.opendir (cwd ++ parent)) (omega arith),
      ))
