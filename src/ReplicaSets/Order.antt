-- ===== src/ReplicaSets/Order.antt =====
-- The ReplicaSets that a pass visits, and their order.
use restate_operator.Base.{◌≡◌, true, String, Option, List, Memᴰ, ◌↔◌, filter}
use restate_operator.Resources.{ReplicaSet}
use restate_operator.Versions.Order.{mem-sort_filter, IsNewestFirst, sort-IsNewestFirst}
use restate_operator.ReplicaSets.Select.{is_candidate, candidates}

-- A pass visits exactly the cached ReplicaSets that its test picks, with none newer than the one
-- before it.
pub candidates-exact :
    (namespace rsd_uid : String) (except_rs : Option String) (store : List ReplicaSet)
    (rs : ReplicaSet)
    → (Memᴰ rs (candidates namespace rsd_uid except_rs store)
        ↔ (Memᴰ rs store × (is_candidate namespace rsd_uid except_rs rs ≡ true)))
      × IsNewestFirst (λ rs. rs.metadata) (candidates namespace rsd_uid except_rs store)
unfolding candidates
candidates-exact namespace rsd_uid except_rs store rs =
    let p = is_candidate namespace rsd_uid except_rs in
    (
      mem-sort_filter (λ rs. rs.metadata) p store rs,
      sort-IsNewestFirst (λ rs. rs.metadata) (filter p store),
    )
