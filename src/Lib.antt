-- ===== src/Lib.antt =====
-- Anklang, a digital audio workstation: parts of the sound engine's library in ase/ that carry its
-- data structures.
--
-- Parts and files:
-- Memory: ase/memory.cc. The engine takes its buffers out of arenas, blobs whose free bytes a
--   SequentialFitAllocator keeps as a list of extents. Memory/Extents has the state and release_ext,
--   best_fit and alloc_ext; the blob's contents are a function from offsets to bytes. Free bytes are
--   counted per offset (Memory/Bytes), so extents that touch and extents that are merged count alike.
--   Lengths are 32 bit numbers, with the wrap-around written out. An assertion that fails returns.
-- EventList: ase/eventlist.hh over the binary lookups of ase/utils.hh. The notes of a clip are a
--   sorted vector of events. EventList/Lookup has the loop of binary_lookup_fuzzy, on fuel: as many
--   rounds as the range has elements are enough, since every round makes it shorter.
--   EventList/List has the operations; the
--   notification is a value of the result, and the cached ordered view a field.
-- Unicode: ase/unicode.cc. Texts are lists of bytes, and a byte past the end reads as the NUL that
--   ends a C string. Unicode/Char has utf8character, Unicode/Codec the conversions of whole texts,
--   Unicode/Fs encodefs, decodefs and displayfs. The loops have the text's length as fuel, as each
--   round consumes a byte at least.
-- Clip: ase/clip.cc and ase/clip.hh. Clip/Notes has ClipNote and its comparisons, Clip/Generator the
--   generator that plays a clip. The receiver's calls are a list of ticks and events, the zero of
--   float and the test for a positive velocity are parameters. The playback loop has the ticks to play
--   as fuel, since every round plays one at least. Sums of ticks stay far below 64 bits. Clip/Ticks
--   connects the generator to the event list, whose ordered view it plays from, and Clip/Image
--   has the undo function of a clip's notes, over any compression of their image.
-- Undo: ase/project.cc. Undo/Stacks has the undo and redo stacks of ProjectImpl and the UndoScope
--   guard, which the source's destructor closes. An undo function changes a world, a parameter, and
--   answers the undo functions that it records; the theorems on undo and redo ask that it records one
--   inverse.
-- QueueMux: ase/queuemux.hh. A queue with values left is its first value and those behind it. The
--   iterator runs on fuel, the number of values that count_pending tells: every step takes one.
-- SortNet: ase/sortnet.hh. The networks are lists of pairs of indices (SortNet/Networks), fixed_sort
--   picks one by the number of values (SortNet/Sort). SortNet/Tables runs a network on all
--   Boolean inputs at once, as bits of numbers, SortNet/ZeroOne goes from those to any values, by
--   the zero-one principle. std::sort is a parameter.
-- MidiEvents: ase/midievent.cc and ase/midievent.hh. MidiEvents/Output has MidiEventOutput, which
--   sorts its events by fixed_sort, MidiEvents/Reader the MidiEventReader, a queue multiplexer over
--   several outputs. What an event holds besides its frame is a parameter.
-- Strings: ase/strings.cc, on lists of bytes (Strings/Chars), with a module for each group of
--   functions. Tests of the C library on characters are those of the C locale, and a C string ends
--   at its NUL. Loops over positions run for as many rounds as there are positions left; the loop of
--   string_from_cquote has the length as fuel, as each round consumes a character.
-- Atomics: ase/atomics.hh. Atomics/Stack has AtomicIntrusiveStack as a step relation: a step is one
--   atomic operation of one thread, a state has the head, the nodes' cells and where each thread is,
--   and the nodes that are pushed and not popped, which the program does not keep. A step is also any
--   write to the cell of a node outside the stack, as pop_reversed and the owners of nodes do; Atomics/Reuse
--   follows a popped node into the stack again. Atomics/Mpmc has
--   MpmcStack in the same way, with its counter of 64 bits. Atomics/Reversed has
--   the loop of pop_reversed, with one round more than nodes as fuel. Atomics/Bits has AtomicBits, whose
--   words are numbers; a read behind the last block is `none`.
-- Transport: ase/transport.cc and ase/transport.hh. Transport/Signature has the time signature of
--   TickSignature and its conversions of ticks to bars and beats; what it makes of the ticks in a
--   beat, a double, is a parameter. An int32 is kept as its 32 bits.
-- Loop: ase/loop.cc, ase/loop.hh. Loop/Sources has EventLoop and its sources: a source is its id, its
--   priority, its state and flags, and `polled` for its place in poll_sources_. Loop/Phases has
--   collect_sources_Lm, prepare_sources_Lm, check_sources_Lm and dispatch_source_Lm; what the virtual
--   methods of a source answer are parameters, by id, and the callback of dispatch is any change of its
--   loop. Loop/MainLoop has iterate_loops_Lm with its round-robin search on fuel for two rounds over the
--   loops, Loop/Once exec_once and clear_source, Loop/Timers TimedSource and the length of a poll.
--   UNDEFINED_PRIORITY is 0, below all priorities of sources. Left out are poll with its file
--   descriptors, the GLib context, run and quit.
-- Levenshtein: ase/levenshtein.cc. Levenshtein/Restricted has damerau_levenshtein_restricted with its
--   three rows, on whole weights and without the rounding of float. Levenshtein/Scripts has edit
--   scripts and their costs. damerau_levenshtein_distance is left out.
-- Ini: ase/inifile.cc, ase/inifile.hh. Ini/Scan has the scanning of values and lines, Ini/File the
--   parser and the values of IniFile, over Strings for quotes and splits, and Ini/Writer has IniWriter. A
--   pointer into the data is the text from there on. The loops have the text's length as fuel, as each
--   round takes a character. Line numbers and debug messages are left out.
-- Prelude: lists, integers, machine words and bit operations, and the library's names.
--
-- ClipImpl uses the event list for its notes, the generator plays their ordered view, and the clip's
-- undo function is one that ProjectImpl's undo and redo run. A block's events go through fixed_sort
-- into the outputs, and the reader merges the outputs by the multiplexer. IniWriter and IniFile quote
-- and unquote values by the functions of Strings.
--
-- Not modelled: audio rendering (floating point), drivers, plugins, the remote interface and the
-- platform layer (calls of other systems), and the C++ object model. The arena registry of
-- ase/memory.cc is left out. What is modelled runs under its callers' locks, so threads stand in the
-- models of the lock-free stacks alone, where all atomic operations have one order.
pub mod Prelude
pub mod Memory
pub mod EventList
pub mod Unicode
pub mod Undo
pub mod Clip
pub mod QueueMux
pub mod SortNet
pub mod Strings
pub mod Transport
pub mod Atomics
pub mod Loop
pub mod MidiEvents
pub mod Levenshtein
pub mod Ini
