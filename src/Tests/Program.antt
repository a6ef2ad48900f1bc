-- ===== src/Tests/Program.antt =====
-- main.c at concrete inputs.
use fping.Base.{
  ◌-◌, ◌≤◌, ◌≡◌, refl, ◌↔◌, true, false, not, ◌||◌, ◌&&◌, if◌then◌else◌, none, List, [], ◌∷◌, ltb,
  ℤ, pos, negsuc, nonzero,
}
use fping.Result.{Key, def_count}
use fping.Main.Options.{Opt, Globals, returned, args_init, def_wait, def_send_delay}
use fping.Main.Verdict.{Judged, first_bad, last_count, last_wait, last_delay, args_init-Judged}
use fping.Main.Phases.{start_level, World, main, m_pool}
use fping.Main.Cleanup.{
  disciplined, pools, frees_early, prints, closed, sockets_of, is_exit, main-disciplined,
  main_abandons,
}

-- one digit, or a minus and one digit
abbrev digit : Key → ℤ
digit [] = pos 0
digit (c ∷ s) = if ltb c b'0' then negsuc 0 else pos (c - 48)

abbrev opts : List Opt
opts = Opt.count (b'2' ∷ []) ∷ Opt.wait (b'7' ∷ []) ∷ Opt.count (b'9' ∷ []) ∷ []

args_init-Judged_example :
    Judged digit
      (first_bad digit opts)
      (last_count digit (pos def_count) opts)
      (last_wait digit (pos def_wait) opts)
      (last_delay digit (pos def_send_delay) opts)
      (args_init digit opts none (pos 1))
args_init-Judged_example = args_init-Judged digit opts none (pos 1)

abbrev parsed : Globals
parsed = record { count = pos 3; wait = pos 7; send_delay = pos 3; file_in = none; level = pos 1 }

opts_parsed : args_init digit opts none (pos 1) ≡ returned (pos 0) parsed
unfolding args_init
opts_parsed = refl

-- everything goes well, until the sender's socket
abbrev world : World
world = record {
  self = b'f' ∷ [];
  euid = 0;
  opts = opts;
  strcasecmp = λ s t. pos 1;
  getenv = λ name. none;
  opens = λ path. true;
  had_pool = m_pool;
  pool = true;
  new_code = pos 0;
  recv_sock = pos 3;
  recv_created = pos 0;
  send_sock = negsuc 0;
  send_created = pos 0;
}

main-disciplined_example :
    (disciplined false (main world digit).actions ≡ true)
    × (pools (main world digit).actions ≤ 1)
    × (closed (main world digit).actions ≡ sockets_of world (prints (main world digit).actions))
    × (((main world digit).code ≡ pos 0) ↔ (
        (prints (main world digit).actions
          || (not (nonzero (pos world.euid))
              && is_exit (args_init digit world.opts none (start_level world digit))))
        ≡ true))
main-disciplined_example = main-disciplined world digit

main_abandons_example :
    (frees_early false (main world digit).actions ≡ true)
    ↔ (((main world digit).code ≡ negsuc 5) × (nonzero world.recv_created ≡ false))
main_abandons_example = main_abandons world digit
