-- ===== src/Dispatch/Tests.antt =====
-- A run on a build with DPDK and verbs whose every call succeeds.
use abtrda.Action.{◌>>=◌}
use abtrda.Prelude.{◌≡◌, refl, true, false, none, []}
use abtrda.Dispatch.{Build, with_transport, run_single_recorder}
use abtrda.Dispatch.Guarded.{entered}

abbrev some_build : Build
some_build = record { have_dpdk = true; have_verbs = true; have_efvi = false; have_i210 = false }

-- A transport that is not compiled in.
ef_vi-absent : with_transport some_build "ef_vi" ≡ none
unfolding with_transport
ef_vi-absent = refl

-- A recorder with two threads on one core does not start, and one with three distinct cores does.
shared_core : (run_single_recorder (λ c t. true) some_build "verbs" "verbs" 2 3 3 []).0 ≡ none
unfolding run_single_recorder ◌>>=◌
shared_core = refl

own_cores : entered (run_single_recorder (λ c t. true) some_build "verbs" "verbs" 2 3 4 []).1 ≡ true
unfolding run_single_recorder ◌>>=◌
own_cores = refl
