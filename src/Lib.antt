-- ===== src/Lib.antt =====
-- FastRing: a pipeline in C from a simulated ADC to a TCP connection. The ADC's thread puts samples into
-- a ring buffer; the processing thread moves them in batches to a second one; the network thread takes
-- them from there and sends them. This library models the parts that carry the data.
--
-- Files and the code that they model (paths from the repository's root):
--   Types            include/adc_types.h: error codes, samples, sizes
--   Memory, Tally    the C allocator as an interface, and a concrete one to run the model with
--   Queue            what a ring buffer promises: a bounded first-in first-out queue
--   Ring             src/buffer/ring_buffer.c: ring_buffer_push, _pop, _push_batch, _pop_batch, _clear,
--                    _count, _is_empty, _is_full, _available on a buffer that exists
--   Ring/Inv .. PopBatch   its invariant, and its operations as transfers at the ends of a window
--   Ring/Refine      the ring buffer against the queue
--   Ring/Create      ring_buffer_create and ring_buffer_destroy
--   Ring/Concurrent  the push and pop operations as steps of a producer and a consumer thread,
--                    and in Ring/Concurrent/Alone a call against the operation itself
--   Ring/Guarded     the same operations with their tests for NULL, and in its child modules what
--                    they answer to any pointers
--   Manager          buffer_manager_create, _init and _destroy; Manager/Release, what is given back
--   Workers          src/thread/thread_workers.c: adc_sample_callback and process_thread_worker;
--                    Workers/Counts and Workers/Order, the samples over all threads, counted and in their
--                    order; Workers/Journey, from the simulator to the network; Workers/Capture,
--                    capture_thread_worker; Workers/Pool and Workers/Network, network_thread_worker
--   Sockets, Loopback   the socket calls as an interface, and concrete ones to run the model with
--   Client           src/network/tcp_client.c: connect, disconnect, send, send_all, receive;
--                    Client/Lifetime: tcp_client_create and tcp_client_destroy
--   Block            data_block_t in memory, tcp_client_send_data_block, and network_thread_worker from
--                    the pop on; Block/Typing, the samples against the C types of their fields
--   Threads          src/thread/thread_manager.c: start, stop, pause, resume, workers and states;
--                    Threads/Calls, sequences of these; Threads/Blocks, its memory; Threads/Loop,
--                    thread_wrapper; Threads/Parts, the statistics and parts that it keeps
--   Adc              src/adc/adc_simulator.c: the operations, and the rounds of the sampling thread
--   Adc/Numbers, Rate, Lifecycle   its samples, how often it takes them, its creation and release
--   Config           src/utils/config.c: the defaults and config_validate
--   Logger           src/utils/logger.c: opening, closing, levels and messages, character by character
--   Logger/Names, Digits, Head, Lines, Files   file names, numbers, lines, the log file
--   Errors           src/utils/adc_error.c
--   Main             src/main.c: Main/Options reads the arguments, Main/Startup makes and releases the
--                    parts, Main/Loop is the main loop, Main/Program puts them together; what holds of
--                    them is in Main/Reading, Main/Keeping, Main/Cleaning, Main/Leaving, Main/Ending and
--                    Main/Program/Exits
--   Clock            src/utils/timestamp.c: the readings of the clock, and sleeping
--   Prelude          names, lists, words and bit masks shared by all
--
-- State is passed explicitly: a function takes the structure that the C function works on and returns
-- it with what the function returns and writes through pointers. A NULL pointer is `none` where the
-- code tests for it and the model has the test; the client operations start after their tests
-- for NULL arguments, and those of Ring too, to which Ring/Guarded adds the tests. Machine words are
-- numbers with the wrap of each operation written out (Prelude/Words). A block of samples is a list; a
-- read outside it would show, a write outside it does nothing, and the invariant excludes both.
--
-- In Ring/Concurrent each step has at most one access to memory that both threads use, and the threads
-- take steps in any order; all accesses come in one order that both threads see. The source promises less:
-- in the pop operations no barrier stands between the read of head and the copy of the samples, so that
-- this is an assumption about the machine and the compiler. Elsewhere one call runs at a time.
--
-- The ring buffer is that of src/buffer/ring_buffer.c, whose push refuses a sample when it is full. That
-- of docs/architecture.md, section 4.1.1, drops the oldest sample instead; it is another program.
--
-- Main/Program has of the threads what they do to the heap: the rounds of the capture thread and then
-- those of the network thread, with the buffers that each round finds given. The threads that a failed
-- start leaves running are not followed there.
--
-- Loops with an unknown number of rounds take fuel and give `none` without enough: the doubling loop of
-- ring_buffer_create, for which 32 rounds suffice up to 2^31, and the loop of tcp_client_send_all, for
-- which one round more than there are bytes suffices.
--
-- Not modelled: the Windows side of every conditional; printing, the sleeping of the threads, and the
-- logging of the other parts; locks; floating-point numbers (the signal of the ADC simulator, averages,
-- two fields of the ADC configuration); the signal SIGPIPE, taken as ignored; the set-up of
-- signal handlers and of thread priorities.
pub mod Prelude
pub mod Types
pub mod Memory
pub mod Queue
pub mod Ring
pub mod Manager
pub mod Workers
pub mod Config
pub mod Clock
pub mod Threads
pub mod Adc
pub mod Logger
pub mod Errors
pub mod Main
pub mod Sockets
pub mod Client
pub mod Tally
pub mod Loopback
pub mod Block
