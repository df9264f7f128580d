-- ===== src/Core/Allocation/ReplayLaws.antt =====
-- What a whole replay keeps.
use jh_holdings.Prelude.{◌≡◌, sym, ◌∙◌, Option, none, some, List, [], ◌∷◌, true, arith}
use jh_holdings.Decimal.{◌≼◌}
use jh_holdings.Core.Allocation.Policy.{V322Policy}
use jh_holdings.Core.Allocation.Defs.{AllocationState, month_start, same_month, advance_state}
use jh_holdings.Core.Allocation.Replay.{Session, TargetRow, target_row, replay_from}
use jh_holdings.Core.Allocation.State.{
  IsLevel, month_start-IsLevel, advance_state-IsLevel, advance_state-one_way,
}

-- What `advance_state` may do from one session to the next.
abbrev pub Follows : V322Policy → Option AllocationState → AllocationState → Type 0
Follows policy none next = IsLevel policy next.leverage
Follows policy (some previous) next =
    IsLevel policy next.leverage
    × (next.month ≡ previous.month
        → (next.leverage ≼ previous.leverage)
          × (next.semiconductor_active ≡ true → previous.semiconductor_active ≡ true))

abbrev pub Chain : V322Policy → Option AllocationState → List TargetRow → Type 0
Chain policy previous [] = Unit
Chain policy previous (r ∷ rest) =
    Follows policy previous r.state × Chain policy (some r.state) rest

abbrev StartsLevel : V322Policy → Option AllocationState → Type 0
StartsLevel policy none = Unit
StartsLevel policy (some s) = IsLevel policy s.leverage

module _ (policy : V322Policy) where
  advance_state-Follows :
      (previous : Option AllocationState) (s : Session)
      → StartsLevel policy previous
      → Follows policy previous (advance_state previous s.month s.qqq_row s.rs_return policy)
  advance_state-Follows none s h =
      unfold advance_state in month_start-IsLevel policy s.month s.qqq_row s.rs_return
  advance_state-Follows (some p) s h = (
    advance_state-IsLevel policy p s.month s.qqq_row s.rs_return h,
    λ same.
        let e : s.month ≡ p.month = sym (month_of p s) ∙ same in
        let (_, down, _, off) = advance_state-one_way policy p s.qqq_row s.rs_return in
        rw e (down, λ on. (off on).0),
  )
    where
      month_of :
          (p : AllocationState) (s : Session)
          → (advance_state (some p) s.month s.qqq_row s.rs_return policy).month ≡ s.month
      month_of p s = unfold advance_state month_start same_month in ground arith

  next-IsLevel :
      (previous : Option AllocationState) (next : AllocationState)
      → Follows policy previous next
      → IsLevel policy next.leverage
  next-IsLevel none next h = h
  next-IsLevel (some p) next h = h.0

  -- In a replay that starts from nothing or from one of the four leverage levels, every row has
  -- one of these levels, and from one row to the next of the same month neither does the
  -- leverage rise nor does the semiconductor sleeve come back on.
  pub replay_from-Chain :
      (sessions : List Session) (previous : Option AllocationState)
      → StartsLevel policy previous
      → Chain policy previous (replay_from previous sessions policy)
  unfolding replay_from target_row
  replay_from-Chain [] previous h = tt
  replay_from-Chain (s ∷ rest) previous h =
      let next = advance_state previous s.month s.qqq_row s.rs_return policy in
      let f = advance_state-Follows previous s h in
      (f, replay_from-Chain rest (some next) (next-IsLevel previous next f))
