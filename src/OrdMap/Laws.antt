-- ===== src/OrdMap/Laws.antt =====
-- What the operations of a `std::map` promise to their callers.
mod Sorted
mod Lookup
mod Positions
mod Writes
pub use rac_kun.OrdMap.Laws.Sorted.{
  lt_asymm, eq_of_same, same_refl, same_of_eq, ne_of_lt, same_lt, same_gt, All-get_elem?, Above,
  IsSorted, assign-IsSorted, insert-IsSorted, erase-IsSorted,
}
pub use rac_kun.OrdMap.Laws.Lookup.{
  find_below, find-assign, find-insert, find-erase, position-get_elem?, position-find,
  position_missing, find-get_elem?,
}
pub use rac_kun.OrdMap.Laws.Positions.{
  All-assign, All-insert, All-erase, position-le, erase_missing, find_missing, position-lt,
  find_present, position-assign_self, position-assign, position-erase, All-erase_ne, All-find,
  position-insert_self, position-insert,
}
pub use rac_kun.OrdMap.Laws.Writes.{eq_of_find, assign_comm, erase-assign}
