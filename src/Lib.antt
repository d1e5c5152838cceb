-- ===== src/Lib.antt =====
-- Verification library of the barryOS kernel: the parts of kernel/src that keep state of their own,
-- translated function by function, with the theorems that make them correct.
--
-- Common holds the shared vocabulary: Boolean tests, lists as fixed arrays (get_or, set, write_at),
-- bits of a byte, counting and sums below a bound, and machine words. The kernel is built without
-- overflow checks, so a word operation that can wrap is written with its modulus (Common.Words).
--
-- Mem is kernel/src/mem. MemMap: efi.rs and memmap.rs, the memory map that the boot loader passes;
-- the raw read of a descriptor is a parameter. Bitmap and FrameAlloc: frame_alloc.rs, the bitmap of
-- 4 KiB frames that is filled from the map; the static bitmap is a field of the allocator. Heap:
-- heap.rs, a bump allocator over a run of frames that it takes from the frame allocator at start.
--
-- Fs is kernel/src/fs. Vnodes: the static vnode table of vfs.rs and its accessors by id, as a state
-- that is passed. Vfs: the directory tree (lookup, create_node, unlink, rename, read_dir, reset).
-- Paths: resolve, resolve_from, split_parent and path_of over names as byte lists. RamFs: ramfs.rs,
-- the pool of file bytes with its bump pointer and list of freed blocks, on top of the vnode table.
-- The pool is a function from offsets to bytes. The ids of the current user, which perm.rs keeps,
-- are an argument of what creates vnodes. Perm: the accounts, the permission check and the texts of
-- perm.rs, without the account files. File: the table of open files of file.rs.
--
-- Proc is kernel/src/proc: the process table of process.rs and the round-robin choice of
-- scheduler.rs. The saved registers are left out: no code of these files reads them. Thread: the start
-- of a thread by thread.rs, with its stack from the frame allocator. Syscall: the dispatch of
-- syscall.rs.
--
-- Net is kernel/src/net. Arp: the addresses, the cache and the frames of arp.rs. Ipv4: the routing
-- decision, the checksum, what is sent and what is done with a received frame (ipv4.rs). Wire: the
-- link that the protocols share (the id counter of mod.rs, the timer, the adapter's hardware address
-- and which frames it takes, and the frames handed to it). Udp, Icmp, Dns and Dhcp: the files of those
-- names, each a record of its statics, passed on with the link. Tcp: tcp.rs, in parts: Ring is the
-- receive buffer, Block the control block, the transmit queue and what goes out, Input what a received
-- segment does, Timer the retransmission; the other modules below it are theorems. Stack: the hand-over
-- of a frame to its layer and the turns of the timers (mod.rs). A handler that udp.rs keeps as a
-- function pointer is named by its protocol. The cycle counter is an argument where it is read, and the
-- turn of the HTTP client is an argument of Stack.tick. The log, and the switch that turns it on, are
-- left out.
--
-- Crypto is kernel/src/crypto. Der: the reader of der.rs on byte lists. Bignum: the comparison, the
-- difference and the modular sum of bignum.rs; a number of n limbs is the list of its n limbs, where
-- the source keeps it in the first n places of a fixed array. Sha256: kernel/src/sha256.rs, the
-- streaming hash with its buffer of a block; Machine, Stream and Message below it are theorems. Hmac:
-- hmac.rs, the keyed hash over it.
--
-- Img is kernel/src/apps/web/img/inflate.rs, the decompressor of the browser's pictures. Outcome: the
-- results, with the source's errors by name, a panic at an index out of range, and the model's own
-- mark for fuel that has run out. Bits: the reader of bits. Huffman: the tables. Inflate: the blocks
-- and the zlib header. The modules below them are theorems.
--
-- Wm is kernel/src/wm/window.rs. Window: the table of windows, which is also their order from bottom
-- to top, with Points, what a point hits, and Moves, how a window changes its place, below it.
-- The size of the screen is an argument of what asks the framebuffer for it. Drawing is left out.
--
-- Loops over a fixed array recurse on the number of rounds left, which is the array's size, so no
-- fuel can run out; the walk of path_of stops after 16 vnodes as the source does, and the ten digits
-- of u32_to_dec do for a 32-bit number. The two rounds of fold_carry bring a 32-bit sum under 16 bits.
-- The loops over the transmit queue run once for each segment in flight; skip_name and the loop over
-- DHCP options have a step of fuel for each byte of the message, and each round takes at least one
-- byte. A slot number that the source computes stays in its array; get_or gives a blank entry
-- elsewhere. The two rings of tcp.rs are functions from their indices. The loops of the decompressor
-- have a step of fuel for each bit that is left, and each round takes a bit at least; the loop over
-- code lengths has one for each length. The loop over whole blocks of a hash has one for each byte.
--
-- Not modelled: output to the serial line, the screen and devices, interrupts, inline assembly, and
-- so far the HTTP client, the Montgomery form, the ciphers, curves and other hashes, TLS, the disk file
-- system and the applications.
pub mod Common
pub mod Mem
pub mod Fs
pub mod Proc
pub mod Net
pub mod Crypto
pub mod Img
pub mod Wm
