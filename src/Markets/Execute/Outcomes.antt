-- ===== src/Markets/Execute/Outcomes.antt =====
-- How a call of `execute_fill` ends.
use leagueos_backend.Prelude.{
  ℕ, ◌≡◌, sym, ◌∙◌, subst, none, some, ◌∷◌, arith, Result, ok, >>=-eq-ok, ◌>>◌, find-head, ==_refl,
  ==_sound, find-holds, Option-cases, inl, inr, ok-injective,
}
use leagueos_backend.Markets.Model.{Order, Fill, Exchange, Label, Error}
use leagueos_backend.Markets.Money.{notional}
use leagueos_backend.Markets.Orders.{get_order}
use leagueos_backend.Markets.Fill.{
  Execution, replay_or, get_existing_fill, get_locked_orders, require_matching_replay,
}
use leagueos_backend.Markets.Execute.{
  Plan, plan_fill, commit_fill, execute_fill, credit_seller_wallet, settle_buy_wallet, store_rows,
}
use leagueos_backend.Markets.Execute.Planning.{MayTrade, plan_fill-IsPlanned}
use leagueos_backend.Markets.Execute.Committing.{commit_fill-fills, credit_seller_wallet-zero}

replay_or-new :
    (r : Execution) (x : Exchange) (next : Result Error (Fill × Exchange))
    → get_existing_fill r.execution_reference x ≡ none
    → replay_or r x next ≡ next
unfolding replay_or
replay_or-new r x next h = ground arith

pub replay_or-old :
    (r : Execution) (x : Exchange) (next : Result Error (Fill × Exchange)) (f : Fill)
    → get_existing_fill r.execution_reference x ≡ some f
    → replay_or r x next ≡ (require_matching_replay f r >> ok (f, x))
unfolding replay_or
replay_or-old r x next f h = ground arith

get_locked_orders-found :
    (r : Execution) (x : Exchange) {b s : Order}
    → get_locked_orders r x ≡ ok (b, s)
    → (get_order r.buy_order_id x ≡ some b) × (get_order r.sell_order_id x ≡ some s)
unfolding get_locked_orders
get_locked_orders-found r x h = ground arith

get_order-id : (id : ℕ) (x : Exchange) {o : Order} → get_order id x ≡ some o → o.id ≡ id
unfolding get_order
get_order-id id x {o} h = ==_sound o.id id (find-holds _ x.orders o h)

module _ (uuid5 : ℕ → Label → ℕ) (r : Execution) (now : ℕ) (x : Exchange) where
  -- A success under a new reference: the orders were found, the plan made and committed.
  pub record IsExecuted (f : Fill) (x' : Exchange) : Type 0 where
    pub buy_order : Order
    pub sell_order : Order
    pub plan : Plan
    pub found_buy : get_order r.buy_order_id x ≡ some buy_order
    pub found_sell : get_order r.sell_order_id x ≡ some sell_order
    pub planned : plan_fill r buy_order sell_order now x ≡ ok plan
    pub committed : commit_fill uuid5 plan x ≡ ok (f, x')

  pub execute_fill-IsExecuted :
      (f : Fill) (x' : Exchange)
      → get_existing_fill r.execution_reference x ≡ none
      → execute_fill uuid5 r now x ≡ ok (f, x')
      → IsExecuted f x'
  unfolding execute_fill
  execute_fill-IsExecuted f x' new h =
      let ((b, s), locked, h₁) =
        >>=-eq-ok (get_locked_orders r x) _ (sym (replay_or-new r x _ new) ∙ h) in
      let (p, planned, committed) =
        >>=-eq-ok (plan_fill r b s now x) _ (sym (replay_or-new r x _ new) ∙ h₁) in
      let (found_buy, found_sell) = get_locked_orders-found r x locked in
      record {
        buy_order = b;
        sell_order = s;
        plan = p;
        found_buy = found_buy;
        found_sell = found_sell;
        planned = planned;
        committed = committed;
      }

  -- A fill under a new reference is only made between orders that may trade.
  pub execute_fill-MayTrade :
      (f : Fill) (x' : Exchange)
      → get_existing_fill r.execution_reference x ≡ none
      → execute_fill uuid5 r now x ≡ ok (f, x')
      → (b : Order) × (s : Order) × (get_order r.buy_order_id x ≡ some b)
        × (get_order r.sell_order_id x ≡ some s)
        × MayTrade r b s
        × (x'.fills ≡ f ∷ x.fills)
  execute_fill-MayTrade f x' new h =
      let d = execute_fill-IsExecuted f x' new h in
      let (buyer, seller, fresh, read, k) =
        plan_fill-IsPlanned r d.buy_order d.sell_order now x d.planned in
      let (same, stored) = commit_fill-fills uuid5 d.plan x d.committed in
      (d.buy_order, d.sell_order, d.found_buy, d.found_sell, k.trade, rw same stored)

  -- A fill whose value rounds to zero is never made.
  pub execute_fill-dust :
      (f : Fill) (x' : Exchange)
      → get_existing_fill r.execution_reference x ≡ none
      → notional r.quantity r.price ≡ 0
      → ¬ (execute_fill uuid5 r now x ≡ ok (f, x'))
  unfolding commit_fill
  execute_fill-dust f x' new dust h =
      let d = execute_fill-IsExecuted f x' new h in
      let (buyer, seller, fresh, read, k) =
        plan_fill-IsPlanned r d.buy_order d.sell_order now x d.planned in
      let p = d.plan in
      let nothing : d.plan.proceeds ≡ 0 = omega (arith, k.gross, k.proceeds) in
      let (bank₁, settled, h₁) =
        >>=-eq-ok (settle_buy_wallet uuid5 p.fill p.buy_order p.settlement (store_rows p x).bank) _
          d.committed in
      let (bank₂, credited, h₂) =
        >>=-eq-ok (credit_seller_wallet uuid5 p.fill p.sell_order p.proceeds bank₁) _ h₁ in
      credit_seller_wallet-zero uuid5 p.fill p.sell_order bank₁ bank₂ (
        subst (λ n. credit_seller_wallet uuid5 p.fill p.sell_order n bank₁ ≡ ok bank₂) nothing
          credited)

  -- The fill just made is the replay of its own call.
  executed-exists :
      (f : Fill) (x' : Exchange)
      → IsExecuted f x'
      → (get_existing_fill r.execution_reference x' ≡ some f)
        × (require_matching_replay f r ≡ ok tt)
  unfolding get_existing_fill require_matching_replay
  executed-exists f x' d =
      let (buyer, seller, fresh, read, k) =
        plan_fill-IsPlanned r d.buy_order d.sell_order now x d.planned in
      let (same, stored) = commit_fill-fills uuid5 d.plan x d.committed in
      let buy_id = get_order-id r.buy_order_id x d.found_buy in
      let sell_id = get_order-id r.sell_order_id x d.found_sell in
      (
        rw (stored, same)
            (find-head _ d.plan.fill x.fills (rw k.reference (==_refl r.execution_reference))),
        rw same (ground (arith, k)),
      )

  -- A fill that was made and is requested again, with the same arguments, is returned and nothing
  -- changes.
  pub execute_fill-replay :
      (f : Fill) (x' : Exchange) (later : ℕ)
      → execute_fill uuid5 r now x ≡ ok (f, x')
      → execute_fill uuid5 r later x' ≡ ok (f, x')
  unfolding execute_fill
  execute_fill-replay f x' later h =
      elim (Option-cases (get_existing_fill r.execution_reference x)) [
        | inl new ↦
            let (was, checked) = executed-exists f x' (execute_fill-IsExecuted f x' new h) in
            replay_or-old r x' _ f was ∙ rw checked
        | inr (g, was) ↦
            let (v, checked, done) =
              >>=-eq-ok (require_matching_replay g r) _ (sym (replay_or-old r x _ g was) ∙ h) in
            let same = ok-injective done in
            subst (λ (y : Fill × Exchange). execute_fill uuid5 r later y.1 ≡ ok y) same
              (replay_or-old r x _ g was ∙ rw checked)
      ]
