-- ===== src/Zookeeper/Watch/Tests.antt =====
-- lib/zookeeperMgr.js: runs of a watch.
use manatee.Base.{Text, codes, ◌≡◌, refl, inl, inr, List, [], ◌∷◌, true, arith}
use manatee.Zookeeper.Watch.{
  got, no_node, failed, absent, unknown, a_read, Watch, Event, watch_fires, timer_ends, get_returns,
  test_returns, step, run, started,
}
use manatee.Zookeeper.Watch.Alive.{Alive, watch-Alive}

-- The node is not there at first, comes into being, and changes; then a read of it fails.
abbrev events : List (Event Text)
events =
    get_returns no_node
    ∷ test_returns absent
    ∷ watch_fires
    ∷ get_returns (got (codes "one") 1)
    ∷ watch_fires
    ∷ get_returns (failed (codes "CONNECTION_LOSS"))
    ∷ timer_ends
    ∷ []

watch-Alive_example : Alive (run events started)
watch-Alive_example =
    watch-Alive events started (tt, (tt, (tt, (tt, (tt, (tt, (tt, tt)))))))
      (inr (inl (omega arith)), inl (refl, refl))

abbrev lost_watch : Watch Text
lost_watch =
    run
      (get_returns (got (codes "one") 1)
        ∷ watch_fires
        ∷ get_returns no_node
        ∷ test_returns (unknown (codes "CONNECTION_LOSS"))
        ∷ [])
      started

-- If the test for a node fails later than the first read, nothing watches the node any more, and
-- neither callback is told.
lost_watch-pending :
    lost_watch ≡ record started { called = true; gets = 0; told = a_read (codes "one") 1 ∷ [] }
unfolding run step
lost_watch-pending = refl
