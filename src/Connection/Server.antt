-- ===== src/Connection/Server.antt =====
-- `Server` of SOLNS/HW10/connection.c, in its two builds.
use cs507_unix_programming.Prelude.{
  ℕ, zero, suc, ◌+◌, ◌%◌, ◌^◌, List, [], ◌∷◌, ◌++◌, Bool, Bytes, length, replicate, get_or, drop,
  if◌then◌else◌, ltb,
}
use cs507_unix_programming.Connection.Io.{Reply, blocked, Written, chunk_then, write}
use cs507_unix_programming.Connection.Platform.{Machine, sizeof_size_t}

-- The next call after `Write`: the caller does not see that it failed, and goes on.
abbrev pub and_write : Written → (List Reply → Written) → Written
and_write w k = elim w.status [ blocked ↦ w | _ ↦ chunk_then w.sent (k w.plan) ]

-- What the socket calls before the first message answer.
pub record ServerHost : Type 0 where
  pub has_socket : Bool
  pub may_reuse : Bool
  pub binds : ℕ → Bool
  pub accepts : Bool
  pub grants : ℕ → Bool

pub data ServerFault : Type 0 where
  no_socket no_setsockopt no_bind no_accept no_buffer bad_usage : ServerFault

-- `exits`: `error(XTDIO_ERROR, …)`, before anything is sent.
pub data ServerRun : Type 0 where
  exits : ServerFault → ServerRun
  serves : Written → ServerRun

-- `-DQ2` sends the messages of the command line, the other build `qtymsg` blocks of `pktsiz` bytes.
pub data Build : Type 0 where
  q2 : Build
  sized : Build

module _ (m : Machine) where
  -- A `size_t` as `Write(skt, &cnt, sizeof(cnt))` sends it.
  abbrev pub send_size : List Reply → ℕ → Written
  send_size p n = write p (m.object n) sizeof_size_t

  -- htonl(3) takes a `uint32_t`.
  abbrev pub network_size : ℕ → ℕ
  network_size n = m.htonl (n % 2 ^ 32)

  abbrev pub send_message : List Reply → Bytes → Written
  send_message p s =
      and_write (send_size p (network_size (length s + 1)))
        (λ q. write q (s ++ 0 ∷ []) (length s + 1))

  unfoldable pub send_messages : List Reply → List Bytes → Written
  send_messages p [] = send_size p 0
  send_messages p (s ∷ ss) = and_write (send_message p s) (λ q. send_messages q ss)

  -- The other build's loop, with the rounds left.
  unfoldable pub send_blocks : (cnt : ℕ) → List Reply → (npktsiz : ℕ) → (pktbuf : Bytes) → Written
  send_blocks zero p npktsiz pktbuf = send_size p 0
  send_blocks (suc cnt) p npktsiz pktbuf =
      and_write (send_size p npktsiz)
        (λ q. and_write (write q pktbuf (m.ntohl npktsiz)) (λ r. send_blocks cnt r npktsiz pktbuf))

  send_sized : ServerHost → List Reply → (pktsiz qtymsg : ℕ) → ServerRun
  unfolding send_blocks
  send_sized h p pktsiz qtymsg =
      if h.grants pktsiz
      then serves (send_blocks qtymsg p (network_size pktsiz) (replicate pktsiz b'a'))
      else exits no_buffer

  -- After accept(2). `scan` is what sscanf(3) stores for a number.
  send_for : Build → (scan : Bytes → ℕ) → ServerHost → List Reply → List Bytes → ServerRun
  unfolding send_messages send_sized
  send_for q2 scan h p argv = serves (send_messages p (drop 3 argv))
  send_for sized scan h p argv =
      if ltb 4 (length argv)
      then send_sized h p (scan (get_or argv 3 [])) (scan (get_or argv 4 []))
      else exits bad_usage

  -- `(u_short) port` is bound.
  unfoldable pub server :
      Build → (scan : Bytes → ℕ) → ServerHost → List Reply → List Bytes → ServerRun
  unfolding send_for
  server build scan h p argv =
      if h.has_socket
      then (if h.may_reuse
          then (if h.binds (scan (get_or argv 2 []) % 2 ^ 16)
              then (if h.accepts then send_for build scan h p argv else exits no_accept)
              else exits no_bind)
          else exits no_setsockopt)
      else exits no_socket
