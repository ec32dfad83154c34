-- ===== src/Dpdk/Setup/Wait.antt =====
-- DPDK::waitLink: how often it asks for the link and kicks it.
use Prim.Native.String.{String}
use abtrda.Action.{◌>>=◌}
use abtrda.Prelude.{
  ℕ, zero, suc, ◌+◌, ◌≤◌, ◌≡◌, refl, inl, inr, Bool, true, false, Option, some, List, [], ◌∷◌,
  arith, if◌then◌else◌, Bool-cases,
}
use abtrda.Dpdk.Eal.{Call, Env, Process, tell, link_up, set_link_up}
use abtrda.Dpdk.Setup.{Dpdk, kicks, await_link, wait_link}

abbrev pub is_query : Call → Bool
is_query (link_up port) = true
is_query c = false

abbrev pub is_kick : Call → Bool
is_kick (set_link_up port) = true
is_kick c = false

-- How many calls of a kind there are.
abbrev pub count : (Call → Bool) → List Call → ℕ
count f [] = 0
count f (c ∷ cs) = (if f c then 1 else 0) + count f cs

-- The kicks of `left` turns from turn `i` on.
abbrev kicks_of : ℕ → ℕ → ℕ
kicks_of zero i = 0
kicks_of (suc left) i = (if kicks i then 1 else 0) + kicks_of left (i + 1)

record Bounded (left i : ℕ) (p : Process) (r : Option (Unit {0}) × Process) : Type 0 where
  pub succeeds : r.0 ≡ some tt
  pub queries : count is_query r.1.calls ≤ count is_query p.calls + left
  pub kicked : count is_kick r.1.calls ≤ count is_kick p.calls + kicks_of left i

module _ (env : Env) (decimal : ℕ → String) where
  -- The process after a turn that found no link.
  abbrev turned : Bool → ℕ → Process → Process
  turned kick port p =
      let q = record p { calls = link_up port ∷ p.calls } in
      if kick then (tell env decimal (set_link_up port) q).1 else q

  turned-queries :
      (kick : Bool) (port : ℕ) (p : Process)
      → count is_query (turned kick port p).calls ≡ 1 + count is_query p.calls
  unfolding ◌>>=◌
  turned-queries true port p = omega (arith)
  turned-queries false port p = omega (arith)

  turned-kicked :
      (kick : Bool) (port : ℕ) (p : Process)
      → count is_kick (turned kick port p).calls ≡ (if kick then 1 else 0) + count is_kick p.calls
  unfolding ◌>>=◌
  turned-kicked true port p = omega (arith)
  turned-kicked false port p = omega (arith)

  await_link-Bounded :
      (left i port : ℕ) (p : Process) → Bounded left i p (await_link env decimal left i port p)
  unfolding await_link
  await_link-Bounded zero i port p = record {
    succeeds = refl;
    queries = omega (arith);
    kicked = omega (arith);
  }
  await_link-Bounded (suc left) i port p =
      let rest = await_link-Bounded left (i + 1) port (turned (kicks i) port p) in
      let q = turned-queries (kicks i) port p in
      let k = turned-kicked (kicks i) port p in
      elim (Bool-cases (env.ok (link_up port) p.calls)) [
        | inl e ↦ rw e (record { succeeds = refl; queries = omega (arith); kicked = omega (arith) })
        | inr e ↦ rw e (record {
          succeeds = rest.succeeds;
          queries = omega (arith, rest.queries, q);
          kicked = omega (arith, rest.kicked, k);
        })
      ]

  -- Whatever the port and the kernel answer, waiting for the link succeeds: it asks for the link at most
  -- 200 times and kicks it at most 7 times.
  pub wait_link-bounded :
      (d : Dpdk)
      → let r = wait_link env decimal d in
        (r.0 ≡ some tt)
        × (count is_query r.1.process.calls ≤ count is_query d.process.calls + 200)
        × (count is_kick r.1.process.calls ≤ count is_kick d.process.calls + 7)
  unfolding wait_link ◌>>=◌
  wait_link-bounded d =
      let b = await_link-Bounded 200 0 d.nic.port d.process in (b.succeeds, b.queries, b.kicked)
