-- ===== src/Ipc/Message.antt =====
-- msgop.c: send a message to a queue, or receive one.
use cs507_unix_programming.Prelude.{
  ℕ, ◌+◌, List, [], ◌∷◌, Bool, true, false, Option, none, some, Bytes, if◌then◌else◌, ◌==◌, ltb,
  leb, set, take, replicate, length,
}

abbrev pub msg_buf_len : ℕ
msg_buf_len = 8192

-- `msgflg`: the bits IPC_NOWAIT and MSG_NOERROR.
pub record Flags : Type 0 where
  pub nowait : Bool
  pub noerror : Bool

-- A system call with its arguments.
pub data Call : Type 0 where
  msgsnd : (msqid mtype : ℕ) → (mtext : Bytes) → Flags → Call
  msgrcv : (msqid msgsz msgtyp : ℕ) → Flags → Call

-- The loop over getchar; `none`: a write behind `mtext`.
unfoldable pub store : (text mtext : Bytes) (i : ℕ) → Option Bytes
store [] mtext i = some mtext
store (c ∷ text) mtext i =
    let rest = store text (set mtext i c) (i + 1) in if ltb i msg_buf_len then rest else none

-- `msgflg!= IPC_NOWAIT` compares, and assigns nothing.
abbrev pub send_flags : (flag : ℕ) (stale : Flags) → Flags
send_flags flag stale = if flag == 1 then stale else record { nowait = false; noerror = false }

-- The message is sent with one byte more than was read. `none`: bytes outside of `mtext` are
-- written, or shown and sent.
abbrev pub message : (msqid mtype : ℕ) (sent : ℕ) → Flags → Option Bytes → Option Call
message msqid mtype i flags none = none
message msqid mtype i flags (some mtext) =
    let msgsz = i + 1 in
    if leb msgsz msg_buf_len then some (msgsnd msqid mtype (take msgsz mtext) flags) else none

-- Choice 1. `text` is what getchar reads up to the end of the input; `sndbuf` begins zero.
unfoldable pub send : (stale : Flags) (msqid msgtyp : ℕ) (text : Bytes) (flag : ℕ) → Option Call
unfolding store
send stale msqid msgtyp text flag =
    message msqid msgtyp (length text) (send_flags flag stale)
      (store text (replicate msg_buf_len 0) 0)

-- The switch of the receiver: from 1 on it adds to what the variable happens to hold.
abbrev pub receive_flags : (flags : ℕ) (stale : Flags) → Flags
receive_flags flags stale =
    if flags == 0
    then record { nowait = false; noerror = false }
    else (if flags == 1
        then record stale { noerror = true }
        else (if flags == 2
            then record stale { nowait = true }
            else (if flags == 3 then record { nowait = true; noerror = true } else stale)))

-- Choice 2.
unfoldable pub receive : (stale : Flags) (msqid msgtyp flags msgsz : ℕ) → Call
receive stale msqid msgtyp flags msgsz = msgrcv msqid msgsz msgtyp (receive_flags flags stale)

-- What is shown of the message; `rtrn` is what msgrcv returns, none if it fails.
unfoldable pub received : (rtrn : Option ℕ) → (rcvbuf : Bytes) → Option Bytes
received none rcvbuf = none
received (some n) rcvbuf = some (take n rcvbuf)

-- What the program shows: the three results of a send, each of a status that it never fills; or the
-- message, and the members of the status.
pub data Line : Type 0 where
  echoes : Bytes → Line
  call_failed : Line
  value_returned msgsz_was : ℕ → Line
  send_status receive_status : (status : ℕ) → Line
  bytes_received : ℕ → Line
  shows : Bytes → Line

-- What the program asks of the kernel, and shows, in order.
pub data Event : Type 0 where
  calls : Call → Event
  ipc_stat : (msqid : ℕ) → Event
  prints : Line → Event

-- Behind msgsnd; `rtrn` is none for -1. The status `buf` is static, and zero: there is no msgctl.
abbrev pub sent : (rtrn : Option ℕ) → (msgsz : ℕ) → List Event
sent none msgsz = prints call_failed ∷ []
sent (some n) msgsz =
    prints (value_returned n)
    ∷ prints (msgsz_was msgsz)
    ∷ prints (send_status 0)
    ∷ prints (send_status 0)
    ∷ prints (send_status 0)
    ∷ []

-- Choice 1 with what it shows; `none` as above.
abbrev pub send_with : (rtrn : Option ℕ) → (msgsz : ℕ) → Option Call → Option (List Event)
send_with rtrn msgsz none = none
send_with rtrn msgsz (some (msgsnd msqid mtype mtext flags)) =
    some (prints (echoes mtext) ∷ calls (msgsnd msqid mtype mtext flags) ∷ sent rtrn msgsz)
send_with rtrn msgsz (some (msgrcv msqid n msgtyp flags)) = none

-- Behind msgrcv: the message, if there is one, and the status, which is asked for twice;
-- `lrpid` and `rtime` are its members then.
abbrev pub shown_message : (rtrn : Option ℕ) → (rcvbuf : Bytes) → List Event → List Event
shown_message none rcvbuf rest = prints call_failed ∷ rest
shown_message (some n) rcvbuf rest =
    prints (bytes_received n) ∷ prints (shows (take n rcvbuf)) ∷ rest

abbrev pub receive_with :
    (rtrn : Option ℕ) → (rcvbuf : Bytes) → (msqid lrpid rtime : ℕ) → Call → List Event
receive_with rtrn rcvbuf msqid lrpid rtime call =
    calls call
    ∷ shown_message rtrn rcvbuf (
        ipc_stat msqid
        ∷ ipc_stat msqid
        ∷ prints (receive_status lrpid)
        ∷ prints (receive_status rtime)
        ∷ [])

-- `main`, with what scanf and getchar read, what the kernel answers, and what `msgflg` happens to
-- hold.
unfoldable pub main :
    (choice : ℕ) (stale : Flags) (msqid msgtyp flag msgsz : ℕ) (text : Bytes) (rtrn : Option ℕ)
    (rcvbuf : Bytes) (lrpid rtime : ℕ)
    → Option (List Event)
unfolding send receive
main choice stale msqid msgtyp flag msgsz text rtrn rcvbuf lrpid rtime =
    if choice == 1
    then send_with rtrn (length text + 1) (send stale msqid msgtyp text flag)
    else if choice == 2
    then some (receive_with rtrn rcvbuf msqid lrpid rtime (receive stale msqid msgtyp flag msgsz))
    else some []
