-- ===== src/Main/Shutdown/Tests.antt =====
-- A shutdown with requests in flight, and the theorems at it.
use rollhook.Prelude.{true, some, ◌≡◌}
use rollhook.Main.Shutdown.{Server, Run}
use rollhook.Main.Shutdown.Ordered.{IsOrdered, Run-IsOrdered, Run-cut_off}

Run-cut_off_example :
    (s : Server) × Run s × (s.returned ≡ true) × (s.in_flight ≡ 2) × (s.drained ≡ some true)
Run-cut_off_example = Run-cut_off 2

Run-IsOrdered_example : IsOrdered (Run-cut_off 2).0
Run-IsOrdered_example = Run-IsOrdered (Run-cut_off 2).0 (Run-cut_off 2).1
