-- ===== src/Irq/Table.antt =====
-- An instance of the interface `HandlerTable`, for tests: what the documentation of
-- `handler_table::HandlerTable` asks can be met.
use axplat_crates.Prelude.{
  ℕ, ◌≤◌, ◌≡◌, refl, Bool, Option, none, some, ◌&&◌, arith, ltb, ◌==◌, if◌then◌else◌,
}
use axplat_crates.Irq.{HandlerTable, is_none}

-- A function from numbers to handlers, read below the capacity only.
module _ (Handler : Type 0) (capacity : ℕ) where
  abbrev pub find : ℕ → (ℕ → Option Handler) → Option Handler
  find i t = if ltb i capacity then t i else none

  abbrev pub add : ℕ → Handler → (ℕ → Option Handler) → Bool × (ℕ → Option Handler)
  add i h t =
      let free = ltb i capacity && is_none (find i t) in
      (free, λ j. if free && i == j then some h else t j)

  abbrev pub remove : ℕ → (ℕ → Option Handler) → Option Handler × (ℕ → Option Handler)
  remove i t = (find i t, λ j. if i == j then none else t j)

  pub find-add :
      (i j : ℕ) (h : Handler) (t : ℕ → Option Handler)
      → find j (add i h t).1
        ≡ (if ltb i capacity && is_none (find i t) && i == j then some h else find j t)
  find-add i j h t = ground arith

  pub find-remove :
      (i j : ℕ) (t : ℕ → Option Handler)
      → find j (remove i t).1 ≡ (if i == j then none else find j t)
  find-remove i j t = ground arith

  pub find-out_of_range : (i : ℕ) (t : ℕ → Option Handler) → capacity ≤ i → find i t ≡ none
  find-out_of_range i t h = ground arith

  abbrev pub function_table : HandlerTable Handler capacity
  function_table = record {
    Table = ℕ → Option Handler;
    lookup = find;
    register_handler = add;
    unregister_handler = remove;
    handle = find;
    register_result = λ i h t. refl;
    lookup-register = find-add;
    unregister_result = λ i t. refl;
    lookup-unregister = find-remove;
    handle_result = λ i t. refl;
    out_of_range = find-out_of_range;
  }
