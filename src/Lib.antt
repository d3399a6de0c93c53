-- ===== src/Lib.antt =====
-- The solution programs of the course CS507, Unix programming, under SOLNS/, the locks of hw5/, and
-- some of the examples: small C programs around system calls, each in a file of its own.
--
-- Parts. Every program is modelled as a function from what the kernel and the C library answer to
-- what it sends, prints or asks for. The answers are parameters: fields of a record `Host`, a list
-- of replies with one for each call, or a list of events. When such a list ends the program waits
-- in a call. The loops recur on these lists or on the rounds left.
--   Prelude         numbers, lists, C strings
--   Connection      SOLNS/HW10/connection.c: `Write` and `Read` (Io), `Server` (Server), `Client` and
--                   `main` (Client), what they use of the machine (Platform)
--   Packet          SOLNS/HW10/packet.c: `Sender`, `Receiver`, `MakeDgramSocket`
--   Matmult         SOLNS/HW11/matmult.c: `Dmatget`, `Dmatmake`, and `RowMult` as threads that take
--                   their rounds in any order; the numbers are a parameter, since there are no doubles
--   Memmap          SOLNS/HW09/memmapA.c: the part that a process plays, `SendArgs`, `RcvArgs`, and two
--                   processes as a step relation over two semaphores and the mapped memory
--   Signals         SOLNS/HW08 (interceptor.c, sigmasker.c, sigsender.c) and SOLNS/HW07 (hw7.c, hw7c1.c,
--                   hw7c2.c): the handler and its array (Log), and a module for each program
--   Devran          SOLNS/HW03/devran.c and devranfifo.c
--   Vacuum          SOLNS/HW02/vacuum.c
--   Uplister        SOLNS/HW04/uplister.c
--   Filelock        hw5/filelock.c: `lock_reg`, `lock_test`, and the test program (Session)
--   PingPong        examples/example-thrd/pingpong1.c (Condition), pingpong2.c (Posting) and
--                   pingpong3.c (Setting): two threads that call in any order
--   Threshold       examples/example-thrd/thrdcond.c
--   Rwlock          examples/example-thrd/thrd_rdlock.c: the threads in any order (Rwlock), what they keep
--                   (Messages, Sharing, Content, Reaching), readers at once (Races)
--   Naming          examples/example-thrd/thrdmutex.c
--   Opening         examples/examples4/open.c
--   Pipes           lab7/pipes.c, hw5/pipes.c, examples/Lab06/pipes.c (Greeting), midtermQuisberth.c (Echo):
--                   the calls of each process, run in any order; Exploring goes through all orders
--   Rounds          examples/example-thrd/thrd2.c (Waiting), thrd_unnamedsem.c (Guarded), hw11/hw11.c (Sharing)
--   Jumping         examples/Lab09/sigsetjmp.c
--   Exercises       hw4/uplister.c (Walk, Walking), hw3/devran.c and devranfifo.c (Random),
--                   hw8/interceptor.c (Quit), hw11/ioSample.c (Product)
--   Lessons         examples/examples02/ex4.c (Factorial), ex5.c (Joining)
--   Ipc             examples/example-ipc: msgget.c, semget.c, shmget.c (Get), msgop.c (Message, Sending),
--                   semop.c (Operation, Operating), shmop.c (Attachment, Attaching),
--                   semctl.c (Control, Controlling), msgctl.c (Queue), shmctl.c (Segment)
--   Lockshow        SOLNS/HW05/hw05soln.c
--   Processes       SOLNS/HW06/fels.c and ids.c
-- The programs meet through the kernel only: the wire of connection.c is the list of bytes that
-- `Server` sends and `Client` reads, the datagrams of packet.c are a list in the same way.
--
-- Numbers. An `int` or `size_t` that the program reads is a natural number: negative arguments are
-- not modelled. Where a width matters it is written out: htonl(3) takes a number modulo 2 ^ 32, a
-- port is taken modulo 2 ^ 16, a `size_t` occupies eight bytes. `sigcnt`, which begins at -1, is
-- kept as `sigcnt + 1`. Lessons/Factorial has ints that end at 2 ^ 31. What C leaves undefined (a write behind an array) is a result of its own.
--
-- Fuel. The loop of `Client` has one round more than there are replies, and each round takes a
-- reply; `UpLister` has one call more than the path has bytes, and each call shortens the path.
-- Pipes/Exploring goes through all orders of at most 8 calls, which is what the scripts of a parent
-- and its child have together.
--
-- Not modelled: the tracing macros of the xtdio library (Edbg, Dprintf, Rdbg, Initdbg), rdcolor, the
-- texts of perror and of the usage messages, the time that sleep and usleep take. `error` with
-- XTDIO_ERROR ends the process, as that library documents. Pipes, locks, semaphores and condition
-- variables do what their manual pages say; that pipe and fork succeed is assumed in Pipes. The copies of other projects in the
-- repository (adv-prog-unix-env3rd-source, ssl, drchipdbg) are not modelled, nor are the shorter
-- examples and the other exercises under hw* and lab*.
pub mod Prelude
pub mod Connection
pub mod Packet
pub mod Matmult
pub mod Memmap
pub mod Signals
pub mod Devran
pub mod Vacuum
pub mod Uplister
pub mod Filelock
pub mod Lockshow
pub mod Processes
pub mod PingPong
pub mod Ipc
pub mod Threshold
pub mod Rwlock
pub mod Opening
pub mod Naming
pub mod Exercises
pub mod Pipes
pub mod Rounds
pub mod Jumping
pub mod Lessons
