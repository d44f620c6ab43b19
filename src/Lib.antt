-- ===== src/Lib.antt =====
-- The kernel of an operating system in the style of Xinu, modelled from its C sources.
--
-- Chapter4 keeps all lists of processes in one table of doubly linked entries (Queue.antt).
-- Chapter5 chooses the process that runs (Sched.antt); Chapter6 creates, suspends, resumes and
-- ends processes (Process.antt). Counting semaphores (Chapter7, Semaphore.antt), messages
-- (Chapter8, Message.antt) and the clock (Chapter13, Clock.antt) take processes off the processor
-- by `resched` and bring them back by `ready`. Chapter9 hands out memory and stacks (Memory.antt).
-- Above these stand buffer pools (Chapter10, Pool.antt) and message ports (Chapter11, Ports.antt),
-- which wait on semaphores, the device switch (Chapter14, Device.antt), the terminal driver
-- (Chapter15, Tty.antt), the local file system (Chapter19, Files.antt) and the name space
-- (Chapter21, Names.antt), which maps a name to a device. Arp.antt is about the ARP cache
-- (Chapter17), Udp.antt about the UDP endpoints and Ip.antt about IP packets (Chapter17); their
-- packets are buffers of a pool. Tables.antt has the loops that search a table. Threads.antt is
-- about the threads within a process (Threads), Mark.antt about marked memory locations
-- (Chapter23). Disk.antt is about the remote disk (Chapter18), Remote.antt about the remote file
-- system (Chapter20), and Boot.antt about the start of the system (Chapter22). Links.antt is about
-- lists that are linked through a field. State.antt declares the kernel's variables, which the
-- kernel's parts share. Samples.antt has the kernel of the tests.
--
-- State. A C table is a function of its subscript. A subscript outside the table gives `none`, so
-- a theorem that a function runs also says that it stays inside its tables. `queuetab` has one
-- function for each field. Identifiers are integers, since the code passes and compares -1
-- (SYSERR, EMPTY). Each kernel function takes the kernel's state and returns it with the
-- function's result. Interrupts are off inside these functions, so one runs without interruption
-- up to a switch of processes. `ctxsw` is the change of `currpid`. A function that does more than
-- return a value after a switch has that part as a function of its own, named with `_rest`, or
-- says how many rounds are left.
--
-- Integers. Keys, priorities and counts are integers without a bound: an `int32` that overflows
-- has no meaning in C. `uint32` and `uint64` values wrap, and the model writes that out.
--
-- Loops. The searches of `insert` and `insertd` run on `nqent` rounds; a queue has at most `nproc`
-- members. `semdelete` runs one round for each unit of its count below zero and one more.
-- `semreset` and `wakeup` run on `nproc + 1` rounds. A port's list is walked on as many rounds as
-- there are nodes. `lfsetup` walks over at most 2 ^ 19 index blocks, as many as a position of 32
-- bits can have, and `lftruncate` on a number of rounds that it is given. `none` is also the
-- result of a loop that runs out of rounds, so a theorem that a function runs also says that its
-- loop ends.
--
-- Not modelled. The words that `create` writes on a new stack, `ctxsw` and the other assembly
-- code, the other device drivers, the ICMP functions, DHCP, and of the remote disk the reading,
-- the control functions and the process that serves its requests. What `meminit` does at the start
-- is a parameter, and so are the devices' functions, among them `rdsinit` of Chapter18, which
-- makes a process. What the header of a free block does to the bytes behind a block that is
-- shorter than the header is left out, except for the length that `getmem` reads back. The queues
-- and the stacks of threads have no source and are parameters. The local file system has a disk of
-- sectors, some of which cannot be read, and one process that uses it: its mutexes are left out.
-- The remote file system has one caller at a time, and it uses the UDP endpoints through an
-- interface: the three calls may be any functions on a state of the network. The conversions of
-- byte order are parameters of the ARP functions, and the packets that these send are a list.
-- `close` is a parameter of `kill`; the functions of the drivers are parameters of the device
-- switch; the devices and the conversion to `char`, which the compiler defines, are parameters of
-- the name space.
pub mod Prelude
pub mod Queue
pub mod Boot
pub mod Remote
pub mod Memory
pub mod State
pub mod Sched
pub mod Semaphore
pub mod Clock
pub mod Message
pub mod Process
pub mod Links
pub mod Ports
pub mod Pool
pub mod Device
pub mod Disk
pub mod Tty
pub mod Files
pub mod Mark
pub mod Threads
pub mod Tables
pub mod Arp
pub mod Ip
pub mod Udp
pub mod Names
pub mod Samples
