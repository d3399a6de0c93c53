-- ===== src/Connection/Io.antt =====
-- `Write` and `Read` of SOLNS/HW10/connection.c: the loops that finish a partial transfer.
-- The kernel's side is a list of replies, one for each call of write(2) or read(2); when the list
-- ends the call blocks for ever.
use cs507_unix_programming.Prelude.{
  ℕ, ◌+◌, ◌-◌, min, ◌∷◌, [], ◌++◌, List, Option, none, some, Bool, Bytes, ltb, ◌==◌, if◌then◌else◌,
  length, take, drop, replicate, zero, suc,
}
use mathlib.Core.Option

-- What one call of write(2) or read(2) does: it fails, or moves at most that many bytes.
pub data Reply : Type 0 where
  fail : Reply
  moved : ℕ → Reply

-- How a call of `Write` or `Read` ends. `blocked`: it is still in its loop.
pub data Status : Type 0 where
  finished : Status
  failed : Status
  blocked : Status

pub record Written : Type 0 where
  pub status : Status
  pub sent : Bytes
  pub plan : List Reply

abbrev pub written : Status → Bytes → List Reply → Written
written s b p = record { status = s; sent = b; plan = p }

-- After one chunk, the rest of the loop.
abbrev pub chunk_then : Bytes → Written → Written
chunk_then b w = written w.status (b ++ w.sent) w.plan

-- `Write`: `mesg` is the memory from `m` on, `sendlen` what is left to write.
unfoldable pub write : List Reply → (mesg : Bytes) → (sendlen : ℕ) → Written
write [] mesg sendlen = written blocked [] []
write (fail ∷ p) mesg sendlen = written failed [] p
write (moved k ∷ p) mesg sendlen =
    let ret = min k sendlen in
    let rest = chunk_then (take ret mesg) (write p (drop ret mesg) (sendlen - ret)) in
    if ltb 0 (sendlen - ret) then rest else written finished (take ret mesg) p

pub record Received : Type 0 where
  pub status : Status
  pub got : Bytes
  pub incoming : Bytes  -- what the peer has sent and nobody has read
  pub plan : List Reply
  pub naps : ℕ  -- calls of sleep(1)

abbrev pub received : Status → Bytes → Bytes → List Reply → ℕ → Received
received s b i p n = record { status = s; got = b; incoming = i; plan = p; naps = n }

abbrev pub piece_then : Bytes → ℕ → Received → Received
piece_then b n r = received r.status (b ++ r.got) r.incoming r.plan (n + r.naps)

-- The receiving loop of `Read`. At the end of the stream read(2) returns 0.
unfoldable pub receive : List Reply → (incoming : Bytes) → (recvlen : ℕ) → Received
receive [] incoming recvlen = received blocked [] incoming [] 0
receive (fail ∷ p) incoming recvlen = received failed [] incoming p 0
receive (moved k ∷ p) incoming recvlen =
    let qtyread = min k (min recvlen (length incoming)) in
    let nap : ℕ = if qtyread == 0 then 1 else 0 in
    let rest =
      piece_then (take qtyread incoming) nap
        (receive p (drop qtyread incoming) (recvlen - qtyread)) in
    if ltb 0 (recvlen - qtyread)
    then rest
    else received finished (take qtyread incoming) (drop qtyread incoming) p nap

-- The allocator: whether it grants a block of that size, and the bytes that realloc(3) leaves
-- indeterminate.
pub record Heap : Type 0 where
  pub grants : ℕ → Bool
  pub stale : ℕ → ℕ

-- A block of `n` bytes that begins with the bytes of an old one.
unfoldable pub extend : Heap → Bytes → ℕ → ℕ → Bytes
extend h old i zero = []
extend h [] i (suc n) = h.stale i ∷ extend h [] (i + 1) n
extend h (b ∷ old) i (suc n) = b ∷ extend h old (i + 1) n

-- The caller's `static char *buf` and `static size_t buflen`.
pub record Buffer : Type 0 where
  pub block : Option Bytes
  pub buflen : ℕ

abbrev pub buffer : Option Bytes → ℕ → Buffer
buffer b n = record { block = b; buflen = n }

unfoldable pub allocate : Heap → Option Bytes → ℕ → Option Bytes
allocate h none n = if h.grants n then some (replicate n 0) else none
allocate h (some old) n = if h.grants n then some (extend h old 0 n) else none

-- `fixed`: `buflen` is null and `pbuf` a variable of the caller's. `tracked none`:
-- `buflen` is given and `pbuf` is null.
pub data Destination : Type 0 where
  fixed : Destination
  tracked : Option Buffer → Destination

pub record ReadRun : Type 0 where
  pub status : Status
  pub got : Bytes
  pub incoming : Bytes
  pub plan : List Reply
  pub naps : ℕ
  pub into : Destination

-- The bytes land at the start of the block.
abbrev pub store_in : Bytes → Bytes → Bytes
store_in got block = got ++ drop (length got) block

abbrev pub run_of : Received → Destination → ReadRun
run_of r d = record {
  status = r.status;
  got = r.got;
  incoming = r.incoming;
  plan = r.plan;
  naps = r.naps;
  into = d;
}

unfoldable pub read_into : List Reply → Bytes → ℕ → Buffer → ReadRun
read_into p incoming recvlen b =
    let r = receive p incoming recvlen in
    run_of r (tracked (some (buffer (Option.map (store_in r.got) b.block) b.buflen)))

-- The sanity check on a new block.
unfoldable pub read_new : List Reply → Bytes → ℕ → Option Bytes → ReadRun
read_new p incoming recvlen none =
    run_of (received failed [] incoming p 0) (tracked (some (buffer none recvlen)))
read_new p incoming recvlen (some block) =
    read_into p incoming recvlen (buffer (some block) recvlen)

-- `Read`. Each `error(XTDIO_ERROR, …)` ends the process: `failed`.
unfoldable pub read : Heap → List Reply → Bytes → (recvlen : ℕ) → Destination → ReadRun
read h p incoming recvlen fixed = run_of (receive p incoming recvlen) fixed
read h p incoming recvlen (tracked none) = run_of (received failed [] incoming p 0) (tracked none)
read h p incoming recvlen (tracked (some b)) =
    if ltb b.buflen recvlen
    then read_new p incoming recvlen (allocate h b.block recvlen)
    else read_into p incoming recvlen b
