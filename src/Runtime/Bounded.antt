-- ===== src/Runtime/Bounded.antt =====
-- src/mlcache/runtime/runtime.py: the capacity bound of the gateway over any calls of the runtime.
use mlcache.Prelude.{ℕ, String, sym, ap, subst, List, [], ◌∷◌}
use mlcache.Float.{FloatOps}
use mlcache.Gateway.{Oracle, Gateway}
use mlcache.Gateway.Loop.{RemoveReturns}
use mlcache.Gateway.Capacity.{IndexReturns}
use mlcache.Gateway.Serve.{Call, Bounded, step, step-Bounded}
use mlcache.Runtime.{Runtime}
use mlcache.Runtime.Lookup.{lookup_with_decision}
use mlcache.Runtime.Lookup
use mlcache.Runtime.Effects.{lookup-Same}

module _ {F : Type 0} ⦃fl : FloatOps F⦄ (o : Oracle F) (strip : String → String) where
  -- What a call of the runtime leaves behind; the caller catches what it raises.
  unfoldable pub call : Runtime F o.State → Call F → Runtime F o.State
  call rt (Call.lookup request now) = (lookup_with_decision o strip request now rt).1
  call rt (Call.put entry now) = (Lookup.put o strip entry now rt).1
  call rt (Call.invalidate key) = (Lookup.invalidate o strip key rt).1

  unfoldable pub call_all : Runtime F o.State → List (Call F) → Runtime F o.State
  call_all rt [] = rt
  call_all rt (c ∷ calls) = call_all (call rt c) calls

  oracle-Bounded :
      (n : ℕ) (g : Gateway o.State) (s : o.State)
      → Bounded o n g
      → Bounded o n (record g { oracle = s })
  oracle-Bounded n g s (kv, _, p, e, h, fits) =
      (kv, s, p, ap (λ (x : Gateway o.State). record x { oracle = s }) e, h, fits)

  module _ (removes : RemoveReturns o) (n : ℕ) (indexes : IndexReturns o) where
    call-Bounded :
        (rt : Runtime F o.State) (c : Call F)
        → Bounded o n rt.gateway
        → Bounded o n (call rt c).gateway
    unfolding call step Lookup.put Lookup.invalidate
    call-Bounded rt (Call.lookup request now) h =
        let (s, e) = lookup-Same o strip request now rt in
        subst (Bounded o n) (sym e) (
          oracle-Bounded n _ s
            (step-Bounded o removes n indexes rt.gateway (Call.lookup request now) h))
    call-Bounded rt (Call.put entry now) h =
        step-Bounded o removes n indexes rt.gateway (Call.put entry now) h
    call-Bounded rt (Call.invalidate key) h =
        step-Bounded o removes n indexes rt.gateway (Call.invalidate key) h

    -- Whatever calls of the runtime are made in whatever order and mode (lookup, put, invalidate),
    -- a gateway with a policy and a bound, whose store and policy hold the same keys within the
    -- bound, still is one afterwards. It is assumed that the oracle's `remove` and `index` raise
    -- nothing; its `decide` and the query-level policy may answer anything and may raise.
    pub call_all-Bounded :
        (rt : Runtime F o.State) (calls : List (Call F))
        → Bounded o n rt.gateway
        → Bounded o n (call_all rt calls).gateway
    unfolding call_all
    call_all-Bounded rt [] h = h
    call_all-Bounded rt (c ∷ calls) h = call_all-Bounded (call rt c) calls (call-Bounded rt c h)
