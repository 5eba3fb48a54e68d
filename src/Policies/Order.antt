-- ===== src/Policies/Order.antt =====
-- The pipeline depends on the order numbers of the policies, not on their places in the list.
use api_gateway_platform.Common.{
  ℕ, ◌≡◌, refl, ◌∙◌, ap, Option, List, [], ◌∷◌, filter, filter-filter_self, arith,
}
use api_gateway_platform.Common.Sort.{sort, insert_sorted, Reordered}
use api_gateway_platform.Shared.Policies.{PolicyConfig, PolicyType, BasePolicyConfig}
use api_gateway_platform.Policies.Types.{Policy, Run}
use api_gateway_platform.Policies.Pipeline.{
  is_enabled, order_leq, active_policies, execute_policies, execute_pipeline,
}

abbrev pub order_of : PolicyConfig → ℕ
order_of p = p.order

insert_sorted_comm :
    (a b : PolicyConfig) (l : List PolicyConfig)
    → (order_of a ≡ order_of b → ⊥)
    → insert_sorted order_leq a (insert_sorted order_leq b l)
      ≡ insert_sorted order_leq b (insert_sorted order_leq a l)
insert_sorted_comm a b [] h = ground arith
insert_sorted_comm a b (c ∷ l) h = ground (arith, insert_sorted_comm a b l h)

sort-Reordered :
    {xs ys : List PolicyConfig}
    → Reordered order_of xs ys
    → sort order_leq (filter is_enabled xs) ≡ sort order_leq (filter is_enabled ys)
sort-Reordered (Reordered.same xs) = refl
sort-Reordered (Reordered.trans r q) = sort-Reordered r ∙ sort-Reordered q
sort-Reordered (Reordered.cons x r) = ground (arith, sort-Reordered r)
sort-Reordered (Reordered.swap x y l h) =
    ground (arith, insert_sorted_comm x y (sort order_leq (filter is_enabled l)) h)

module _ {W : Type 0} (create : PolicyType → BasePolicyConfig → Option (Policy W)) where
  -- A rearrangement of the policies that carries none over another of the same order number leaves
  -- the result, the context and the outside world as they are.
  pub execute_pipeline-Reordered :
      {ps qs : List PolicyConfig} (s : Run W)
      → Reordered order_of ps qs
      → execute_pipeline create ps s ≡ execute_pipeline create qs s
  unfolding execute_pipeline active_policies
  execute_pipeline-Reordered s r = ap (λ l. execute_policies create l s) (sort-Reordered r)

  -- A disabled policy might as well not be there.
  pub execute_pipeline-filter :
      (ps : List PolicyConfig) (s : Run W)
      → execute_pipeline create (filter is_enabled ps) s ≡ execute_pipeline create ps s
  unfolding execute_pipeline active_policies
  execute_pipeline-filter ps s =
      ap (λ l. execute_policies create (sort order_leq l) s) (filter-filter_self is_enabled ps)
