-- ===== src/Lib.antt =====
-- Verification of the VDIF recorder of the mmBVEX RFSoC backend (host/vdif_recorder.c) and of its
-- synthetic source (host/vdif_gen.c).
--
-- The recorder takes VDIF frames of 8032 bytes off a network card. A capture thread checks each
-- frame, accounts for gaps in the frame numbers, cuts files at seconds and packs frames into slabs;
-- full slabs go through a ring of indices to a writer thread, which returns empty ones through
-- another ring.
--
-- Modules and the code that they model:
--   Base         shared notation: unsigned words, byte memory, lists, bit operations as arithmetic
--   Vdif         host/vdif_recorder.c: le32, vhdr_t, parse_vhdr; Vdif.Stream: runs of frames
--   Spsc         host/vdif_recorder.c: spsc_t, spsc_init, spsc_push, spsc_pop; Threads: the two
--                calls access by access, interleaved
--   Telemetry    host/vdif_recorder.c: the st_ counters, enum rec_state, state_name, on_signal
--   Capture      host/vdif_recorder.c: capstate_t, process_one_frame, capstate_finish
--     Account    the frame-number accounting; Log: the frames that stand in slabs; Pool: who owns
--                which slab; Pack, Cut, Fate, Frame: the parts of the call and the
--                whole; Finish: the end; Tally: what became of any run of packets
--   Text         texts as bytes, with what the C library does with them: strcmp, atoi, strtok
--   Args         host/vdif_recorder.c, main: the argument loop, parse_disks and the checks
--   Status       host/vdif_recorder.c: udp_rcvbuf_errors, write_status, the status loop of main
--   Calendar     host/vdif_recorder.c: vdif_to_unix
--   Disk         host/vdif_recorder.c: ofile_t, the files, the answers of the system calls
--   Files        host/vdif_recorder.c: choose_disk, refresh_free, file_open, write_sidecar,
--                file_finalize, slab_write
--   Writer       host/vdif_recorder.c: writer_thread; Attempts, Rolls, Rounds: one slab; Kept, Queue,
--                Turns, Drain: the queue after the capture; Bytes, Slabs: that queue and the pool
--   Setup        host/vdif_recorder.c, main: the slab pool and its queues
--   Backend      host/vdif_recorder.c: the batch loop of capture_recvmmsg; Thread: the thread; Step,
--                Stream: batches in order; Batch: any batch
--   Xdp          host/vdif_recorder.c: the descriptor loop of capture_xdp; Thread: the thread;
--                host/xsk_redirect.bpf.c
--   Filter       host/vdif_recorder.c: the BPF program of attach_bpf
--   Packet       host/vdif_recorder.c: frame_to_vdif
--   Ring         host/vdif_recorder.c: the walk over a block of capture_ring; Thread: ring_setup and
--                the thread
--   Gen          host/vdif_gen.c: put_le32, fill_vdif_header, the numbering and sending of frames; Run:
--                batches and ticks; Epoch: vdif_epoch_now; Args: its argument loop
--   Shutdown     host/vdif_recorder.c: capstate_finish, and writer_thread after it
--   EndToEnd     the source feeding the recorder, as in host/veth_selftest.sh
--
-- Unsigned words are native numbers with the wrap-around written out; signed values that the code
-- never makes negative are plain numbers. Byte memory is a list; a pointer is an offset or the rest
-- of the memory. The state that threads share is passed explicitly. A wait in the code is a list of
-- rounds, each with what g_stop reads and what the other threads did meanwhile, so a result for
-- every list is a result for every schedule of the wait. A round of the writer also has what the
-- other threads did between a pop that found nothing and the load of g_capture_running.
--
-- Fuel: the loop that finds the queue size takes 32 rounds, enough for any number of slabs below
-- 2 ^ 31; the packet filter takes as many steps as it has instructions, enough because its jumps
-- only go forward. Both are proved below. The write loop runs over the list of results of write;
-- where the list ends before the loop does, the model says that the write is still under way.
--
-- Outside the model: sockets, recvmmsg, sendmmsg, open, write, fallocate, ftruncate, rename and
-- statvfs (their results are arguments, and their effect on a file is that of their manual pages),
-- posix_memalign (the arena is an argument), libxdp and libbpf (which of their calls succeed is an
-- argument), socket options, and all text output. The firmware, the Python scripts and the shell scripts are not C code.
pub mod Base
pub mod Vdif
pub mod Calendar
pub mod Disk
pub mod Files
pub mod Writer
pub mod Gen
pub mod Spsc
pub mod Telemetry
pub mod Capture
pub mod Setup
pub mod Backend
mod Fixtures
pub mod EndToEnd
pub mod Shutdown
pub mod Filter
pub mod Packet
pub mod Xdp
pub mod Ring
pub mod Text
pub mod Args
pub mod Status
