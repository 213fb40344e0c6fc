-- ===== src/Lib.antt =====
-- Models and theorems for the programs of this repository.
--
-- The parts of the program, and where they are modelled:
-- * 1.6/src, a thread library over clone(2) with join, detach and a reaper thread.
--   Mythread/Flags.antt is the state word of mythread.h. Mythread/Protocol.antt is thread_startup,
--   mythread_join and mythread_detach of mythread.c and the reaper of queue.h around one thread
--   object: agent 0 is the thread, agent 1 the reaper, and the others call join and detach, as often
--   as they like. A step is one access to shared memory; Reach holds of the states that n agents
--   reach in any order of steps. Protocol/Invariant.antt is the invariant, Protocol/Safety.antt what
--   follows from it. Mythread/Kernel.antt is what is live in the kernel and on the heap,
--   Mythread/Create.antt is create_stack, destroy_stack and mythread_create, and
--   Mythread/Reaper.antt is start_reaper of queue.h. Protocol/Later.antt is what the agents reach from
--   a state on, Protocol/Waking.antt the sleep in the futex, Protocol/Returns.antt the steps that
--   one call takes, and Protocol/Detachers.antt and Protocol/OneCall.antt the runs with the calls of a
--   test. Mythread/Lifecycle.antt joins the object
--   of Create.antt to the releases of Protocol.antt. Mythread/Programs.antt is the tests of main.c that
--   join, Programs/Detaching.antt those that only detach and main, and Programs/Passes.antt what they
--   return.
-- * 1.6/src/queue.h, the queue between exiting or detached threads and the reaper. ReapQueue.antt
--   interleaves reap_enqueue of any number of threads with reaper_main; ReapQueue/Nodes.antt is what
--   is done to the nodes in memory under the lock.
-- * 1.6/src/wo_reaper/mythread.c, the same library without a reaper: WoReaper.antt, in the manner of
--   Mythread/Protocol.antt, and WoReaper/Create.antt, in the manner of Mythread/Create.antt.
--   WoReaper/Runs.antt is the runs with the calls of a test, and WoReaper/Programs.antt the tests of
--   wo_reaper/main.c.
-- * 2.3/src, a linked list with a lock in each node, searched and reordered by six threads.
--   Storage/Memory.antt is memory, the locks held and the counters; Storage.antt is the thread
--   functions of main.c of mutex, rwlock and spinlock, which differ in the lock alone.
--   Storage/Layout.antt says what list a memory stands for; Storage/Search.antt, Storage/Swap.antt
--   and Storage/Swapper.antt show what the functions do to it, one at a time. Storage/Threads.antt cuts
--   the same functions where a thread waits for a lock, and lets any number of threads make these
--   steps in any order; Reach holds of the states that they reach. Threads/Order.antt is the order of
--   the nodes, Threads/Blocks.antt what one step does, Threads/Invariant.antt the invariant, and
--   Threads/Exclusion.antt which locks threads hold against each other, and Threads/Safety.antt,
--   Counters.antt, Progress.antt, Bounded.antt and Stop.antt what follows. Storage/Build.antt is
--   storage_init, storage_destroy and generate_gandom_string of list.c. Storage/Program.antt is main
--   up to its six threads, and Storage/Monitor.antt its monitor thread and stop. Storage/Rwlock.antt
--   and Storage/Spinlock.antt are the programs that are the text of mutex with another lock.
-- * 3/src, an HTTP proxy. Proxy/CString.antt is what it uses of string.h on an array of
--   bytes. Of handler.c, Proxy/Request.antt is parse_request_line, Proxy/Headers.antt is parse_headers,
--   Proxy/Resolve.antt is resolve_host, Proxy/Relay.antt is the loops that write, and
--   Proxy/Client.antt is handle_client. Proxy/Listen.antt is main of main.c, with
--   the threads that it starts. Headers/Print.antt is headers as text, and RoundTrip.antt, Lines.antt,
--   Rewrite.antt, Replace.antt and Overwrite.antt what parse_headers makes of them; Request/Print.antt is a request
--   line as text, and Client/Printed.antt and Client/Rewritten.antt the request that is sent on.
-- Base.antt and its children hold shared names and lemmas. Each part has its tests in Tests.antt.
--
-- Code outside the repository is a parameter: the outcomes of system calls, malloc, rand, the
-- scheduler, getaddrinfo, and what the sockets deliver.
--
-- Bounds and fuel: numbers are unbounded, except where the code relies on the width: sizes and
-- addresses of stacks and the length of a header's value wrap at 2^64, and a port at 2^16. The inner
-- loop of search_pairs, the walk of the reaper and the loop of storage_destroy run on fuel, and the
-- length of the list is enough; the loop over the headers has fuel for each byte of the array, and
-- each header is two bytes long at least; the loop that writes has fuel for each byte to write.
--
-- Not modelled: weak memory orders (a step is atomic and seen at once), the messages, and the older
-- threads.c of 2.3/src, which no program includes. In Mythread/Protocol.antt the reaper is running
-- from the start. In Mythread/Protocol.antt and WoReaper.antt the state records whether a step has touched
-- the object, or run on the thread's stack, after the release, or _exit has ended the process; the agents
-- go on in the model, and a freed object reads as before, so a theorem that supposes more says so. The
-- thread's exit is one step with its last access to the object. In WoReaper.antt the futex wait of join is
-- a repeated load.
--
-- In Storage/Threads.antt a step runs from the acquisition of a lock to the wait for the next one.
-- What is touched in between belongs to nodes whose lock the thread holds: anything else is a fault of
-- the model. A lock is taken only when no other holder
-- bars it; a lock that makes a thread wait longer, as one that prefers writers may, is a thread that
-- makes no step meanwhile. rwlock is the mode shared for the threads that search, mutex and spinlock
-- are the mode exclusive.
pub mod Base
pub mod Mythread
pub mod WoReaper
pub mod ReapQueue
pub mod Storage
pub mod Proxy
