-- ===== src/Lib.antt =====
-- A model of the core of BRsBBS, a bulletin board server in C descended from PttBBS, with proofs
-- about it.
--
-- The parts and how they meet. A client's bytes enter through `telnet_process`
-- (common/sys/telnet.c), which strips and answers TELNET commands; what it keeps is put into a
-- ring buffer (common/sys/vbuf.c), and is popped from there byte by byte for the keyboard parser
-- (common/sys/vtkbd.c), which turns terminal escape sequences into keys. The reading lists ask and
-- tell the read records (mbbsd/brc.c) which articles a user has seen. Titles and mail headers go
-- through the helpers of common/sys/string.c. Users are found by the hash and the sorted tables of
-- common/bbs/cache.c; articles, boards and users are records of files (common/sys/record.c); and each
-- user has a tree of favourite boards (mbbsd/fav.c).
--
-- The files.
--   Prelude             names of the library, Boolean tests, lists and byte buffers
--   Vtkbd               `vtkbd_process`, one function per state, and
--                       `vtkbd_ignore_dbcs_evil_repeats`; keys are those of include/vtkbd.h
--   Vbuf                the VBUF macros of include/cmsys.h and the operations of vbuf.c; a pointer
--                       is an offset into the storage, and EOF or NULL is `none`; Vbuf.Device
--                       has `vbuf_general_write` and `vbuf_general_read`
--   Telnet              `telnet_handler` and `telnet_process`; callbacks and writes are events, in
--                       order, and which callbacks are set is a parameter
--   Text                helpers of common/sys/string.c: escape sequences, double-byte characters,
--                       encoded words of mail headers; a string is its bytes without the NUL
--   Aids                mbbsd/aids.c: the code of an article, `aidu2aidc` and `aidc2aidu`,
--                       its file name, `fn2aidu` and `aidu2fn`, and
--                       `search_aidu_in_bfile` on the records that the reads return
--   Brc                 the record list of a board: `brc_addlist`, `brc_unread_time`,
--                       `brc_search_read`; a time4_t is its 32-bit pattern, compared as signed;
--                       Brc.Buffer has `brc_find_record` and `brc_insert_record` on the
--                       bytes of all boards
--   Reversi             mbbsd/ch_reversi.c: where a piece may be put, hints, moves and the result; a
--                       board is its 100 characters, and offsets of a direction are one more than
--                       those of DIRX and DIRY
--   Uhash               the hash of user ids of common/bbs/cache.c, with the hash function of
--                       include/fnv_hash.h; a link of -1 is `none`, and a pointer to a link is a slot
--   Ulist               the search by process id of common/bbs/cache.c over the sorted table
--   Records             common/sys/record.c on files as lists of bytes; -1 is `none`
--   Fav                 mbbsd/fav.c: the tree of favourites, its clean-up and its file, with
--                       `fav_number` handed on; Fav.Items has finding, adding and removing, with
--                       MAX_BOARD of the configuration as a parameter
--   Utf8                `ucs2utf` and `utf2ucs` of common/sys/utf8.c
--   Vector              the vector of names of common/sys/vector.c
-- The children of each file are named for what they prove, and its Tests have runs at concrete
-- inputs.
--
-- Bounds and fuel. The loops of `vbuf_general_write` and `vbuf_general_read` run on fuel; fuel for
-- the bytes held, or for the room that is free, is enough where no call of the device answers "try
-- again", since each round then moves a byte or ends. The loops of `strip_ansi`, of
-- `brc_findrecord_in` and of `vbuf_reverse` run on the length of what they go over, which their
-- theorems show to be enough. A walk over the board of reversi has nine steps, since the dummies stop
-- it. The loops over a chain of the user hash run MAX_USERS times, as in the code. The copying loop
-- of `delete_records` and the doubling of a vector's storage run on fuel for the size of the file and
-- for the size asked for; their theorems return a result. The search of Ulist
-- runs on fuel for the length of the table, in which its theorem shows it to end. `read_favrec` runs
-- on fuel for the depth of the folders, and its theorems return a tree. Printing a number runs on its
-- ten digits. All other loops are structural recursion. Arithmetic that wraps is written out: the
-- signed order of times, the sizes that record.c puts into an `int`, the 64 bits of an article number,
-- the 32 bits of the pattern of `mmdecode`, and the 16 bits of the count of dangling bytes. Where the
-- storage of a vector would overflow an `int`, the model ends without a result.
--
-- The device functions that `vbuf_general_write` and `vbuf_general_read` call are parameters, with
-- what readv and writev promise as the laws of Vbuf.Device.Io and Vbuf.Device.Receive. So are what
-- malloc leaves in a block, and what stands in front of the table that `strip_ansi` reads.
--
-- Not modelled: the wrappers that only call the system, the screens, the daemons, the utilities,
-- and the copies of other projects' libraries.
pub mod Prelude
pub mod Vtkbd
pub mod Vbuf
pub mod Telnet
pub mod Brc
pub mod Text
pub mod Aids
pub mod Reversi
pub mod Uhash
pub mod Ulist
pub mod Records
pub mod Fav
pub mod Utf8
pub mod Vector
