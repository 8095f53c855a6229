-- ===== src/Fetch/Tests.antt =====
-- The theorems on the units at a small fetcher.
use sqd_go.Base.{◌≡◌, ◌⊎◌, refl, inl, inr, false, [], ◌∷◌, arith}
use sqd_go.Fetch.{Prefetcher, gap_units, get_work}
use sqd_go.Fetch.Units.{Pending, Claimed, get_work-Pending}

abbrev prefetcher : Prefetcher
prefetcher = record {
  end_block = 5000;
  workers = 2;
  max_ahead = 1000;
  next_block = 1000;
  gap_span = 200;
  beast_mode = false;
  ready = [];
  next_emit = 700;
  gaps = record { from = 700; to = 799 } ∷ [];
  active_workers = 1;
  stop_claim = false;
  done_wg = false;
}

units :
    gap_units 5 2 10 14
    ≡ record { from = 10; to = 11 }
      ∷ record { from = 12; to = 13 }
      ∷ record { from = 14; to = 14 }
      ∷ []
unfolding gap_units
units = refl

get_work-Pending_example :
    Claimed (get_work prefetcher false).0 750 ⊎ Pending (get_work prefetcher false).1 750
get_work-Pending_example =
    get_work-Pending prefetcher false 750 (omega arith) (inr (inl (omega arith, omega arith)))
