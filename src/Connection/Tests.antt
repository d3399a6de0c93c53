-- ===== src/Connection/Tests.antt =====
-- The theorems on connection.c at concrete inputs, and tests by evaluation.
use cs507_unix_programming.Prelude.{
  suc, ◌∷◌, [], ◌++◌, List, Bytes, none, some, true, length, take, drop, replicate, arith, ◌≡◌,
  refl, map,
}
use cs507_unix_programming.Connection.Io.{
  Reply, fail, moved, finished, Heap, buffer, tracked, write, receive, read, read_into, read_new,
  allocate, extend,
}
use cs507_unix_programming.Connection.Platform.{plain_machine}
use cs507_unix_programming.Connection.Server.{send_messages}
use cs507_unix_programming.Connection.Client.{receive_messages, conversation, closed}
use cs507_unix_programming.Connection.Delivery.{
  IsPrefixSent, write-IsPrefixSent, IsWritten, write-IsWritten,
}
use cs507_unix_programming.Connection.Reception.{IsReceived, receive-IsReceived}
use cs507_unix_programming.Connection.Buffering.{Roomy, read-IsRoomy}
use cs507_unix_programming.Connection.Rounds.{line_of}
use cs507_unix_programming.Connection.RoundTrip.{client-send_messages}

abbrev generous : Heap
generous = record { grants = λ _. true; stale = λ _. 255 }

abbrev hi : Bytes
hi = b'h' ∷ b'i' ∷ []

abbrev two_messages : List Bytes
two_messages = hi ∷ (b'y' ∷ []) ∷ []

abbrev by_threes : List Reply
by_threes = replicate 30 (moved 3)

client-send_messages_example :
    ((send_messages plain_machine by_threes two_messages).status ≡ finished)
    × (receive_messages plain_machine generous
          (suc (length by_threes))
          by_threes
          (send_messages plain_machine by_threes two_messages).sent
          (buffer none 0)
        ≡ conversation closed (map line_of two_messages))
unfolding plain_machine
client-send_messages_example =
    client-send_messages plain_machine generous two_messages by_threes by_threes (λ n. refl)
      (omega arith) (omega arith) (omega arith) (omega arith) (omega arith)

write-IsPrefixSent_example : IsPrefixSent hi 2 (write (moved 1 ∷ fail ∷ []) hi 2)
write-IsPrefixSent_example = write-IsPrefixSent (moved 1 ∷ fail ∷ []) hi 2 (omega arith)

-- A failed call leaves a part of the message on the wire.
write_fails : (write (moved 1 ∷ fail ∷ []) hi 2).sent ≡ b'h' ∷ []
unfolding write
write_fails = refl

write-IsWritten_example :
    IsWritten (moved 1 ∷ moved 5 ∷ []) (take 2 hi) (write (moved 1 ∷ moved 5 ∷ []) hi 2)
write-IsWritten_example =
    write-IsWritten (moved 1 ∷ moved 5 ∷ []) hi 2 (omega arith) (omega arith) (omega arith)
      (omega arith)

receive-IsReceived_example :
    IsReceived
      (moved 1 ∷ moved 5 ∷ [])
      (take 2 (hi ++ hi))
      (drop 2 (hi ++ hi))
      (receive (moved 1 ∷ moved 5 ∷ []) (hi ++ hi) 2)
receive-IsReceived_example =
    receive-IsReceived (moved 1 ∷ moved 5 ∷ []) (hi ++ hi) 2 (omega arith) (omega arith)
      (omega arith) (omega arith)

read-IsRoomy_example :
    Roomy 2 (read generous by_threes (hi ++ hi) 2 (tracked (some (buffer none 0))))
unfolding read read_into read_new allocate receive
read-IsRoomy_example = read-IsRoomy generous by_threes (hi ++ hi) 2 (buffer none 0) refl (λ e. cc)

-- A grown block keeps its bytes.
read_grows :
    (read generous by_threes hi 2 (tracked (some (buffer (some (b'x' ∷ [])) 1)))).into
    ≡ tracked (some (buffer (some hi) 2))
unfolding read read_into read_new allocate extend receive
read_grows = refl
