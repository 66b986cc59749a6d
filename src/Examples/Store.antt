-- ===== src/Examples/Store.antt =====
-- An instance of the ring buffer and one of the file system, with their laws.
use pcan_alterative.Base.{ℕ, ◌-◌, ◌≤◌, refl, List, [], ◌++◌, length, take, drop, min, arith}
use pcan_alterative.Base.{length-append, length-take, length-drop, ok, true}
use pcan_alterative.Zephyr.RingBuf.{RingBuf, RingBufLaws}
use pcan_alterative.Flash.Log.{FileSystem}
use pcan_alterative.Flash.Log.Drain.{TakesAll}

-- The bytes queued, at most `cap`.
pub record Bytes : Type 0 where
  pub cap : ℕ
  pub items : List ℕ
  pub held : length items ≤ cap

abbrev pub put : Bytes → List ℕ → Bytes × ℕ
put r xs =
    let n = r.cap - length r.items in
    (
      record {
        cap = r.cap;
        items = r.items ++ take n xs;
        held = omega (arith, length-append r.items (take n xs), length-take n xs, r.held);
      },
      min n (length xs),
    )

abbrev pub get : Bytes → ℕ → Bytes × List ℕ
get r n = (
  record {
    cap = r.cap;
    items = drop n r.items;
    held = omega (arith, length-drop n r.items, r.held);
  },
  take n r.items,
)

abbrev pub ring : RingBuf
ring = record {
  Ring = Bytes;
  put = put;
  get = get;
  space_get = λ r. r.cap - length r.items;
  size_get = λ r. length r.items;
}

abbrev pub fresh : ℕ → Bytes
fresh cap = record { cap = cap; items = []; held = omega arith }

abbrev pub ring_laws : RingBufLaws ring
ring_laws = record {
  contents = λ r. r.items;
  capacity = λ r. r.cap;
  bounded = λ r. r.held;
  space = λ r. omega (arith, r.held);
  size = λ r. refl;
  put_stores = λ r xs. refl;
  put_count = λ r xs. refl;
  put_capacity = λ r xs. refl;
  get_takes = λ r n. refl;
  get_leaves = λ r n. refl;
  get_capacity = λ r n. refl;
}

abbrev pub files : FileSystem
files = record {
  File = List ℕ;
  mount = ok tt;
  init = λ f. [];
  open_named = λ f ticks. ([], ok tt);
  write = λ f xs. (f ++ xs, ok (length xs));
  sync = λ f. (f, true);
  close = λ f. (f, ok tt);
}

abbrev pub files_laws : TakesAll files
files_laws = record {
  content = λ f. f;
  open_ok = λ f ticks. refl;
  open_empty = λ f ticks. refl;
  write_count = λ f xs. refl;
  write_appends = λ f xs. refl;
  sync_keeps = λ f. refl;
  close_keeps = λ f. refl;
}
