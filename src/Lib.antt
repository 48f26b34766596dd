-- ===== src/Lib.antt =====
-- A model of parts of TinyKVM, a library that runs Linux programs as KVM guests, forks them and
-- resets them quickly. The parts that decide which memory and which files a guest gets are modelled here; each
-- definition follows the C++ function that its comment names.
--
--   Mmap and MmapCache: the address space that the guest's mmap() hands out. MmapCache is
--   MMapCache of lib/tinykvm/mmap_cache.hpp, a list of free and a list of used ranges; Mmap is the
--   interface of Machine above it (mmap_allocate, mmap_fixed_allocate, mmap_unmap, mmap_relax), both
--   in lib/tinykvm/memory_maps.cpp. The state is the record of the two lists and current().
--   A range is its address and its size, arithmetic wraps at 2^64, and an exception
--   carries the state in which it was thrown.
--   Mmap/Calls has the handlers of mmap without a file, munmap, mremap and brk above them.
--   MemoryBanks: the working memory of a VM in lib/tinykvm/memory_bank.cpp and memory_bank.hpp,
--   handed out page by page or as 2 MB pages, and taken back by reset(). The host is a
--   parameter, HostMemory: mmap() is a function from the size and the huge page flag to an address,
--   of which is assumed that it is not null, and install_memory() throws where KVM does not accept
--   a region. madvise() and munmap() change nothing that the model has.
--   Paging: the walks of the guest's page tables in lib/tinykvm/amd64/paging.cpp, on the part of
--   vMemory (lib/tinykvm/memory.cpp, memory.hpp) that they use. Memory is a function from the
--   physical address of a page and an index to one of its 512 words, and a word is written as its
--   fields (Paging/Entry). Paging/Walk has page_at and readable_page_at, Paging/Writable
--   writable_page_at cut at its levels, with the copies of 4 kB and 2 MB pages; new pages come from
--   MemoryBanks. Paging/Leaf is about one 4 kB entry; Paging/Fork, Isolation, IsolatedLeaf,
--   IsolatedHuge and IsolatedWalk follow a request of a fork, which must not write to main memory.
--   Threads: the guest's threads, MultiThreading and Thread of lib/tinykvm/linux/threads.cpp, with
--   the system calls on them. A pointer to a thread is its tid; guest memory is a parameter with reads
--   and writes that may fault. Threads/Balance counts threads, Threads/Yield and Turns are about the
--   queue, Threads/Steps, Clone and Run about the calls.
--   Fds: the virtual descriptors of a machine, FileDescriptors of lib/tinykvm/linux/fds.cpp and
--   fds.hpp, and the handlers of lib/tinykvm/linux/system_calls.cpp that open, duplicate and close
--   descriptors. The host's calls are a parameter, Fds/Host.Host, with what their documentation says
--   of the descriptors that they open and close in Fds/Owners.IsLawful. Fds/Manage, Translate, Reset
--   and Calls are the operations; Fds/Owners, Managed, Translated, Isolated, Controlled and Restored
--   follow which real descriptors a machine owns, Fds/Limits and Bounds how many, Fds/Settled the
--   recursion of translate, Fds/RoundTrip and Epolls what is looked up after what.
--   Copies: how a machine reads its guest's memory, in lib/tinykvm/machine_utils.cpp: the copies,
--   buffers, views and strings, which go by chunks of one page at most. The lookup of a page and the
--   bytes of the host are parameters. Copies/Bytewise reads byte by byte, Copies/Reads and Strings
--   compare the two, Copies/Limited compares an array of buffers with a vector, and Copies/Prefix a
--   vector that has buffers with an empty one.
--   Signals: the signal actions and alternate stacks of lib/tinykvm/linux/signals.cpp and signals.hpp,
--   with rt_sigaction and sigaltstack; guest memory is a parameter, as for Threads.
--
-- Fallible code returns an Outcome (Prelude/Outcome): a value or an error, each with the state.
-- Machine integers are natural numbers, reduced where the source's types wrap (Prelude/Word). A loop of
-- the modelled code is a recursion on a list, or fills a page; only translate, which calls itself for
-- the members of an epoll, and the loops over the chunks of guest memory take fuel: one more than the
-- machine has epolls, and the length of the range.
--
-- Not modelled: a remote VM (page_at then asks the other VM), the foreign banks and the file-backed
-- ranges' content, the locks of SMP guests, output, the setup of the first page tables and their
-- marking as copy-on-write (what a fork is assumed to start from is written out in Paging/Fork), the
-- checks of paths and addresses, mappings of files, most system calls, ELF loading, and all that calls KVM.
mod Prelude
pub mod MmapCache
pub mod Mmap
pub mod MemoryBanks
pub mod Paging
pub mod Threads
pub mod Fds
pub mod Copies
pub mod Signals
