-- ===== src/Lib.antt =====
-- BaristaScript: the front end's data formats and registries, modelled from the C++ sources.
--
-- BaristaScript is a statically typed script language for Godot. The text tokenizer turns a source
-- into tokens; a token buffer saves them in a binary form and replays them to the parser later; the
-- analyzer reports warnings, which a registry names, orders and hands to the engine. A parse cache
-- keeps a payload for each script in a store on disk, and serves it while the source is the same.
--
-- The parts and their files:
--   Common     numbers, lists, integers and maps that the parts share
--   Host       the engine's variants, their binary form and the Zstandard codec, as parameters
--   Token      src/bs_tokenizer.h and src/bs_tokenizer.cpp: the token types (Types, Index), their
--              names (Names), the token (Data), the predicates on token types (Classes, Laws), the
--              decision of `potential_identifier` on a word (Words, Keywords), and
--              `BSTokenizer::decode_source` (Source, with Source/Utf8 and Source/Sound)
--   Buffer     src/bs_tokenizer_buffer.cpp and .h: the format (Format), the pools (Pool), the
--              records and the loop of `parse_code_string` (Write, Save), the object (State),
--              `set_code_buffer` with `_binary_to_token` (Load), and `scan` (Replay). Safety and
--              Ensures are about reads of the buffer, RoundTrip about saving and loading, and
--              Replay/Effects, Replay/Step and Replay/Whole about calls of `scan`
--   Cache      src/bs_cache.cpp and .h: the parse cache on disk. Its state (State, Miss), numbers and
--              hashes (Bytes), `load` (Load), `lookup`, `put` and the eviction (Lookup), `flush` over a
--              disk and the system's answers (Flush); Atomic and Success are about a flush, RoundTrip,
--              Reload, Kept and Served about a flush and a load, Safety, Whole and Verdict about loading
--              any bytes, Answers and Evict about the other operations, Invariant and History about all
--              of them. Parser is `raise_status` of `BSParserRef`
--   Codegen    src/bs_byte_codegen.cpp and .h: address words (Address), the generator (State), local
--              slots, blocks and temporaries (Slots), and the jumps of branches and while loops
--              (Jumps), `and` and `or` (Logic), and the slots in `write_end` (Finish). Joined is about
--              Logic; Locals, Temporaries, Notes, Packed and Placed are about slots; Layout is the code
--              with its jumps known, and Patch, Emitted, Steps, Branches, Loops and Backpatch are about
--              reaching it
--   Warning    src/bs_warning.cpp and .h: codes and tables (Code, Number), messages (Message),
--              names and levels (Registry, Levels, Settings), positions (Position, Span), order
--              (Order, Sorted)
--   Tests      runs on concrete inputs, over an engine of its own
--
-- Bytes and 32-bit words are natural numbers, with the wrap-around written out; an `int` is an
-- integer. Maps are association lists. A read outside a buffer or a list is a value of the result
-- type, so that its absence can be stated. `decode_source` runs on as much fuel as there are bytes,
-- each turn taking one at least; `scan` calls itself at most once, so its fuel is 2. Code points and
-- texts are lists of numbers. The increment of `end_column` for a DEDENT is not wrapped at the
-- greatest `int`, and neither is the column behind a line's end, a line being shorter than that. The
-- slots of a function are counted without bound where it has more of them than an `int` holds. The disk of the cache is a function from paths to files; a file is discarded when
-- the source asks for it, and two spellings of one path count as two files.
--
-- Not modelled: the text tokenizer's scan but for its words, the parser, the analyzer, types, the tables
-- of the cache of parsers, the compiler but for these parts of its code generator, the virtual machine and the
-- binding to the engine. Of the warnings, the engine's sort and the text server are left out, and the
-- project settings are a parameter.
pub mod Common
pub mod Host
pub mod Token
pub mod Buffer
pub mod Cache
pub mod Codegen
pub mod Warning
pub mod Tests
