-- ===== src/Tests/Tables.antt =====
-- A database in lists.
use mathlib.Core.List.Perm
use ride_flow.Prelude.{
  List, [], ◌∷◌, ◌++◌, map, refl, filterb, find, map_where, distinct, length, not,
}
use ride_flow.Sql.{Sql}
use ride_flow.Tests.Sorting.{sort, sort-Perm, sort-IsOrdered}

instance abbrev pub list_sql : Sql
list_sql = record {
  Table = List;
  rows = λ t. t;
  get = find;
  select = filterb;
  order_by = λ le p t. sort le (filterb p t);
  add = λ r t. t ++ (r ∷ []);
  update = λ p f t. (map f (filterb p t), map_where p f t);
  delete = λ p t. (length (filterb p t), filterb (λ r. not (p r)) t);
  unique = distinct;
  get-rows = λ p t. refl;
  select-rows = λ p t. Perm.refl (filterb p t);
  order_by-rows = λ le p t. sort-Perm le (filterb p t);
  order_by-IsOrdered = λ le p t total trans. sort-IsOrdered le total trans (filterb p t);
  rows-add = λ r t. refl;
  update-returning = λ p f t. Perm.refl (map f (filterb p t));
  rows-update = λ p f t. refl;
  delete-count = λ p t. refl;
  rows-delete = λ p t. refl;
  unique-rows = λ eq t. refl;
}
