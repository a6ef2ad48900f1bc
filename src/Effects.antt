-- ===== src/Effects.antt =====
-- What main.c, send.c, recv.c and icmp.c do that the world, or another part of the program, can see.
use fping.Base.{ℕ, Option, ℤ}
use fping.Result.{Key}

-- a line of `usage`: the synopsis with the program's name, or an option with its default
pub data Help : Type 0 where
  synopsis : Key → Help
  option : ℕ → Option ℕ → Help

pub data Action : Type 0 where
  helps : Help → Action
  opens_file : Key → Action
  makes_pool : Action
  builds_table : Action
  starts_receiver : Action
  starts_sender : Action
  joins_sender : Action
  sleeps : ℤ → Action
  cancels_receiver : Action
  closes : ℤ → Action
  prints_report : Action
  frees_pool : Action
