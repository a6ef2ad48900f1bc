-- ===== src/Lib.antt =====
-- A verification library for fping, a parallel ICMP ping: main.c reads the options, result.c builds a
-- table of hosts from the lines of a file, send.c sends echo requests to all of them in rounds while
-- recv.c, on another thread, stamps the replies, and result.c prints the average round-trip times.
--
-- The parts and their files:
--   Utils/Checksum  utils.c `checksum`; Utils/Strip utils.c `strip`; Utils/Hexdump utils.c `hexdump`
--                   and `format_line`; Utils/Files utils.c `map_file` and `read_file`
--   Icmp            icmp.c: `icmp_open` with its filter, `icmp_send`, whose packet is `request`, and
--                   `icmp_recv`, whose part behind the length test is `parse`; `icmp_close`
--   Effects         what main.c and the ends of the two threads do that the world can see
--   Result          result.h, and result.c `calc_time`, `result_output` and `result_dump`; Result/New
--                   `result_new`
--   Recv            recv.c: the body of `recv_loop` is `recv_round`, its branch for a reply `on_reply`;
--                   Recv/Thread `recv_init` and `recv_wait`
--   Send            send.c: `send_loop`, with `send_host` for the body of the inner loop; Send/Thread
--                   `send_init` and `send_wait`
--   Session         the two loops as steps that interleave over the shared results; Session/Alone
--                   relates them to `send_loop`, Session/Clock has the times that a run takes
--   Main/Options    main.c `args_init` and `usage`; Main/Phases main.c `main` with `result_init` and
--                   `result_free` of result.c
--   Log             log.c: `log_init`, `log_any`, `sindex` and the level; the macros of log.h
--   Ping            ping.h `Ping::start`: `rounds` is its outer loop, `await` its inner one, `inspect` the
--                   rest of that loop's body
--   Table           the contract by which result.c, recv.c and send.c use table.c; Table/Tree table.c,
--                   whose loops are `get_loop` and `find_place`; Table/Meets shows that it meets it;
--                   Table/Lock the initialisation of the lock
--   Rbtree          ks_rbtree.h and the accessors of ks_rbtree.c; Rbtree/Rotate `__rb_rotate_left` and
--                   `__rb_rotate_right`, Rbtree/Insert `ks_rb_insert_color`, Rbtree/Erase
--                   `__rb_erase_color`, Rbtree/Remove `ks_rb_erase`, Rbtree/Replace
--                   `ks_rb_replace_node`, Rbtree/Walk the first, last, next and previous nodes and
--                   `table_for_each` of table.h, Rbtree/Augment `rb_augment_path` and what calls it
--   Host            the byte order of the machine, with `htons` and `ntohs`
--   Base            shared helpers; Tests the theorems at concrete inputs, and runs
-- The other files below these hold their proofs and are named for what they show.
--
-- State. Results are a function from the addresses of the `struct ping_results` to their contents, the
-- receive buffer a list of bytes that `icmp_recv` hands on; a write or a read outside an array, and
-- a signed overflow in the checksum, are `none`. The inputs of a C function come first, and globals
-- that it reads, such as `g_count`, are arguments. `uint8_t` and `uint16_t` are numbers with their
-- range as a hypothesis; an `int` that may be negative is in ℤ, and `calc_time` wraps its sum as the
-- conversion to `int` does.
--
-- The tree. Memory is a function from addresses to nodes, with the root; `none` is an access through
-- NULL or to memory without a node. The source has each function twice, for left and right; here a
-- `Side` tells the two apart. A node's word for its parent and its colour is a number, in which `|` is
-- `+`, as nodes lie at multiples of 4. The theorems see memory through a `Focus`: a subtree, and
-- the tree around it as a context. An entry of the table has its node in front, so that both have one
-- address; its key and value stand beside the memory. The loops over the tree take fuel: the number of
-- entries ever added and one more, for the removal two more, is shown to be enough.
--
-- Every other loop is a recursion on what is left of its input (bytes, lines, options, arrivals, hosts or
-- rounds), so none needs fuel; the receiving loop, which ends by cancellation, and the waiting loop of
-- ping.h run over a finite list of arrivals, behind which the latter blocks.
--
-- Parameters, for code outside the repository: the machine's byte order, `isspace`, `inet_addr`,
-- `inet_ntoa`, `atoi`, `strcmp`, `strcasecmp`, `getenv`, `gethostbyname`, `timersub`, `gettimeofday`,
-- the system calls, the pool that nedmalloc gives (`alloc`), and the callback of the augmentation, for
-- which no caller is there. What the theorems take from their documentation is named there: `IsHost`,
-- `IsTimersub`, `IsPool`, `IsOrder` (the sign of `strcmp` orders the strings), `Names`, `IsRecompute`
-- (a callback that computes a node's value from those of its children).
--
-- Not modelled: the lock of the table behind its initialisation, since no code takes it; nedmalloc.c
-- and malloc.c.h, which are other projects' libraries; the formats of the texts that are printed;
-- `result_output` for a table that is NULL, which `main` never gives it; what a receiving thread does
-- between the request to cancel it and its end; `usleep`; `setuid` and the fields of an address but the IP address in ping.h. `result_dump`,
-- `hexdump`, `map_file`, `read_file`, the augmentation and ping.h are called nowhere in the program.
mod Base
pub mod Rbtree
pub mod Effects
pub mod Host
pub mod Icmp
pub mod Log
pub mod Main
pub mod Ping
pub mod Recv
pub mod Result
pub mod Send
pub mod Session
pub mod Table
mod Tests
pub mod Utils
