-- ===== src/MapViewTypeTracker/Views/Sums.antt =====
-- The totals of `Report`.
use ts3vasmanager.MapViewTypeTracker.Views.{
  anonymous, image_section, file_mapped_other, file_mapped_no_name, file_mapped_package,
  file_mapped_dbpf,
}
use ts3vasmanager.MapViewTypeTracker.Views.{
  ViewKind, Tracker, count_kind, count_redirect, record_view, total_views, total_bytes_seen,
}
use ts3vasmanager.Prelude.{ℕ, Bool, true, false, List, arith, add64, ◌≡◌}

-- `RecordView` of any kind adds one to the total of views that `Report` prints and the view's size
-- to the total of bytes, as 64-bit counters, whether or not the view was redirected.
pub record_view-totals :
    (same_name : List ℕ → List ℕ → Bool) (kind : ViewKind) (base : List ℕ) (bytes : ℕ)
    (redirected : Bool) (t : Tracker)
    → let t' = record_view same_name kind base bytes redirected t in
      (total_views t' ≡ add64 (total_views t) 1)
      × (total_bytes_seen t' ≡ add64 (total_bytes_seen t) bytes)
unfolding record_view count_kind count_redirect total_views total_bytes_seen
record_view-totals same anonymous base bytes false t = (omega arith, omega arith)
record_view-totals same anonymous base bytes true t = (omega arith, omega arith)
record_view-totals same image_section base bytes false t = (omega arith, omega arith)
record_view-totals same image_section base bytes true t = (omega arith, omega arith)
record_view-totals same file_mapped_other base bytes false t = (omega arith, omega arith)
record_view-totals same file_mapped_other base bytes true t = (omega arith, omega arith)
record_view-totals same file_mapped_no_name base bytes false t = (omega arith, omega arith)
record_view-totals same file_mapped_no_name base bytes true t = (omega arith, omega arith)
record_view-totals same file_mapped_package base bytes false t = (omega arith, omega arith)
record_view-totals same file_mapped_package base bytes true t = (omega arith, omega arith)
record_view-totals same file_mapped_dbpf base bytes false t = (omega arith, omega arith)
record_view-totals same file_mapped_dbpf base bytes true t = (omega arith, omega arith)
