-- ===== src/MapViewTypeTracker/Views.antt =====
-- The counters of the view categories: `RecordView`, and the two sums of `Report`.
pub mod Sums
use ts3vasmanager.MapViewTypeTracker.Files.{FileSlot, record_file_name}
use ts3vasmanager.Prelude.{ℕ, Bool, true, false, List, [], add64}

pub data ViewKind : Type 0 where
  anonymous image_section file_mapped_other file_mapped_no_name : ViewKind
  file_mapped_package file_mapped_dbpf : ViewKind

pub record Tracker : Type 0 where
  pub cnt_anonymous : ℕ
  pub cnt_image : ℕ
  pub cnt_other_file : ℕ
  pub cnt_no_name : ℕ
  pub cnt_pkg_no_dbpf : ℕ
  pub cnt_pkg_dbpf : ℕ
  pub bytes_anonymous : ℕ
  pub bytes_image : ℕ
  pub bytes_other_file : ℕ
  pub bytes_no_name : ℕ
  pub bytes_pkg_no_dbpf : ℕ
  pub bytes_pkg_dbpf : ℕ
  pub cnt_redirected : ℕ
  pub bytes_redirected : ℕ
  pub files : List FileSlot

abbrev pub new_tracker : Tracker
new_tracker = record {
  cnt_anonymous = 0;
  cnt_image = 0;
  cnt_other_file = 0;
  cnt_no_name = 0;
  cnt_pkg_no_dbpf = 0;
  cnt_pkg_dbpf = 0;
  bytes_anonymous = 0;
  bytes_image = 0;
  bytes_other_file = 0;
  bytes_no_name = 0;
  bytes_pkg_no_dbpf = 0;
  bytes_pkg_dbpf = 0;
  cnt_redirected = 0;
  bytes_redirected = 0;
  files = [];
}

module _ (same_name : List ℕ → List ℕ → Bool) where
  -- The `switch` of `RecordView`.
  unfoldable pub count_kind : ViewKind → List ℕ → ℕ → Tracker → Tracker
  count_kind anonymous base bytes t = record t {
    cnt_anonymous = add64 t.cnt_anonymous 1;
    bytes_anonymous = add64 t.bytes_anonymous bytes;
  }
  count_kind image_section base bytes t = record t {
    cnt_image = add64 t.cnt_image 1;
    bytes_image = add64 t.bytes_image bytes;
  }
  count_kind file_mapped_other base bytes t = record t {
    cnt_other_file = add64 t.cnt_other_file 1;
    bytes_other_file = add64 t.bytes_other_file bytes;
    files = record_file_name same_name base bytes t.files;
  }
  count_kind file_mapped_no_name base bytes t = record t {
    cnt_no_name = add64 t.cnt_no_name 1;
    bytes_no_name = add64 t.bytes_no_name bytes;
  }
  count_kind file_mapped_package base bytes t = record t {
    cnt_pkg_no_dbpf = add64 t.cnt_pkg_no_dbpf 1;
    bytes_pkg_no_dbpf = add64 t.bytes_pkg_no_dbpf bytes;
    files = record_file_name same_name base bytes t.files;
  }
  count_kind file_mapped_dbpf base bytes t = record t {
    cnt_pkg_dbpf = add64 t.cnt_pkg_dbpf 1;
    bytes_pkg_dbpf = add64 t.bytes_pkg_dbpf bytes;
    files = record_file_name same_name base bytes t.files;
  }

  unfoldable pub count_redirect : ℕ → Bool → Tracker → Tracker
  count_redirect bytes false t = t
  count_redirect bytes true t = record t {
    cnt_redirected = add64 t.cnt_redirected 1;
    bytes_redirected = add64 t.bytes_redirected bytes;
  }

  -- `RecordView`; an empty base name leaves the file table alone, which `record_file_name` sees to.
  unfoldable pub record_view : ViewKind → List ℕ → ℕ → Bool → Tracker → Tracker
  unfolding count_kind count_redirect
  record_view kind base bytes redirected t =
      count_redirect bytes redirected (count_kind kind base bytes t)

-- `totalViews` and `totalBytes` of `Report`.
unfoldable pub total_views : Tracker → ℕ
total_views t =
    add64
      (add64 (add64 (add64 (add64 t.cnt_anonymous t.cnt_image) t.cnt_other_file) t.cnt_no_name)
        t.cnt_pkg_no_dbpf)
      t.cnt_pkg_dbpf

unfoldable pub total_bytes_seen : Tracker → ℕ
total_bytes_seen t =
    add64
      (add64
        (add64 (add64 (add64 t.bytes_anonymous t.bytes_image) t.bytes_other_file) t.bytes_no_name)
        t.bytes_pkg_no_dbpf)
      t.bytes_pkg_dbpf
