-- ===== src/Console/Lock/Atomic.antt =====
-- `CONSOLE_LOCK` makes the prints of axplat/src/console.rs atomic.
use axplat_crates.Prelude.{
  ℕ, ◌≡◌, ◌≢◌, refl, sym, ◌∙◌, Bool, true, false, Option, none, some, List, [], ◌∷◌, ◌++◌,
  append-nil, arith, ℕ_discrete,
}
use axplat_crates.Console.{ConsoleIf, write_str, write_fmt, Locked, simple_print}
use axplat_crates.Console.Lock.{
  Printer, printing, Printers, Step, call, lock, write, unlock, begun, Reach, here, next,
}

module _ (c : ConsoleIf) where
  -- The texts printed one after the other.
  pub print_all : List (List (List ℕ)) → Locked c → Option (Locked c)
  print_all [] s = some s
  print_all (text ∷ texts) s = elim (simple_print c text s) [
    | none ↦ none
    | some t ↦ print_all texts t
  ]

  abbrev replay : List (List (List ℕ)) → c.State → c.State
  replay [] w = w
  replay (text ∷ texts) w = replay texts (write_fmt c text w)

  replay-append :
      (xs : List (List (List ℕ))) (x : List (List ℕ)) (w : c.State)
      → replay (xs ++ x ∷ []) w ≡ write_fmt c x (replay xs w)
  replay-append [] x w = refl
  replay-append (y ∷ xs) x w = replay-append xs x (write_fmt c y w)

  abbrev pub unlocked : c.State → Locked c
  unlocked w = record { held = false; console = w }

  print_all-replay :
      (texts : List (List (List ℕ))) (w : c.State)
      → print_all texts (unlocked w) ≡ some (unlocked (replay texts w))
  unfolding print_all simple_print
  print_all-replay [] w = refl
  print_all-replay (text ∷ texts) w = print_all-replay texts (write_fmt c text w)

  abbrev pub is_printing : Printer → Bool
  is_printing (printing _) = true
  is_printing _ = false

  -- The lock is free, and all texts are complete.
  record Free (w : c.State) (texts : List (List (List ℕ))) (s : Printers c) : Type 0 where
    unheld : s.held ≡ false
    nobody : (j : ℕ) → is_printing (s.at j) ≡ false
    complete : s.console ≡ replay texts w

  -- The CPU `i` has the lock, and has still to write what its text lacks.
  record Busy (w : c.State) (texts : List (List (List ℕ))) (s : Printers c) (i : ℕ)
      (rest : List (List ℕ)) : Type 0 where
    holds : s.held ≡ true
    owner : s.at i ≡ printing rest
    others : (j : ℕ) → j ≢ i → is_printing (s.at j) ≡ false
    owed : write_fmt c rest s.console ≡ replay texts w

  data Inv (w : c.State) (texts : List (List (List ℕ))) (s : Printers c) : Type 0 where
    free : Free w texts s → Inv w texts s
    busy : (i : ℕ) (rest : List (List ℕ)) → Busy w texts s i rest → Inv w texts s

  -- Only the owner of the lock prints.
  owner_of :
      {w : c.State} {texts : List (List (List ℕ))} {s : Printers c} (i k : ℕ)
      {rest rest' : List (List ℕ)}
      → Busy w texts s k rest'
      → s.at i ≡ printing rest
      → (i ≡ k) × (rest ≡ rest')
  owner_of i k b e = elim (ℕ_discrete i k) [ yes h ↦ (h, cc) | no h ↦ cc (b.others i h) ]

  owed_next :
      {w : c.State} {texts : List (List (List ℕ))} {s : Printers c} {k : ℕ} (pieces : List (List ℕ))
      (piece : List ℕ) (rest : List (List ℕ))
      → Busy w texts s k rest
      → piece ∷ pieces ≡ rest
      → write_fmt c pieces (write_str c piece s.console) ≡ replay texts w
  unfolding write_fmt
  owed_next pieces piece rest b whole = rw (← whole) at b.owed

  owed_none :
      {w : c.State} {texts : List (List (List ℕ))} {s : Printers c} {k : ℕ} (rest : List (List ℕ))
      → Busy w texts s k rest
      → [] ≡ rest
      → s.console ≡ replay texts w
  unfolding write_fmt
  owed_none rest b whole = rw (← whole) at b.owed

  Step-Inv :
      {w : c.State} {texts : List (List (List ℕ))} {s t : Printers c}
      → (step : Step c s t) → Inv w texts s
      → Inv w (texts ++ begun c step) t
  Step-Inv {texts = texts} (call i pieces e) (free f) = rw (append-nil texts) (
      free (record {
        unheld = f.unheld;
        nobody = λ j. ground (arith, f.nobody j);
        complete = f.complete;
      }))
  Step-Inv {texts = texts} (call i pieces e) (busy k rest b) = rw (append-nil texts) (
      busy k rest (record {
        holds = b.holds;
        owner = ground (arith, b.owner);
        others = λ j ne. ground (arith, b.others j ne);
        owed = b.owed;
      }))
  Step-Inv {w} {texts} {s} (lock i pieces e h) (free f) = busy i pieces (record {
    holds = refl;
    owner = ground arith;
    others = λ j ne. ground (arith, f.nobody j);
    owed = rw f.complete (sym (replay-append texts pieces w));
  })
  Step-Inv (lock i pieces e h) (busy k rest b) = cc (b.holds)
  Step-Inv (write i piece pieces e) (free f) = cc (f.nobody i)
  Step-Inv {texts = texts} (write i piece pieces e) (busy k rest b) =
      let (same, whole) = owner_of i k b e in
      rw (append-nil texts) (
        busy i pieces (record {
          holds = b.holds;
          owner = ground arith;
          others = λ j ne. ground (arith, b.others j (λ q. ne (q ∙ sym same)));
          owed = owed_next pieces piece rest b whole;
        }))
  Step-Inv (unlock i e) (free f) = cc (f.nobody i)
  Step-Inv {texts = texts} (unlock i e) (busy k rest b) =
      let (same, whole) = owner_of i k b e in
      rw (append-nil texts) (
        free (record {
          unheld = refl;
          nobody = λ j. elim (ℕ_discrete i j) [
            | yes q ↦ ground arith
            | no q ↦ ground (arith, b.others j (λ p. q (same ∙ sym p)))
          ];
          complete = owed_none rest b whole;
        }))

  Reach-Inv :
      {w : c.State} {texts : List (List (List ℕ))} {s : Printers c}
      → Reach c w texts s
      → Inv w texts s
  Reach-Inv here = free (record { unheld = refl; nobody = λ j. refl; complete = refl })
  Reach-Inv (next r step) = Step-Inv step (Reach-Inv r)

  -- However the CPUs take their steps, where the lock is free the console is as if the texts had been
  -- printed one after the other by `__simple_print`, in the order in which the CPUs got the lock.
  pub Reach-simple_print :
      {w : c.State} {texts : List (List (List ℕ))} {s : Printers c}
      → Reach c w texts s
      → s.held ≡ false
      → print_all texts (unlocked w) ≡ some (unlocked s.console)
  Reach-simple_print {w} {texts} {s} r h = elim (Reach-Inv r) [
    | free f ↦ rw f.complete (print_all-replay texts w)
    | busy i rest b ↦ cc (b.holds)
  ]

  go_on :
      {s : Printers c} (i : ℕ) (rest : List (List ℕ))
      → s.at i ≡ printing rest
      → (t : Printers c) × Step c s t
  go_on i [] e = (_, unlock i e)
  go_on i (piece ∷ pieces) e = (_, write i piece pieces e)

  -- Two CPUs never write at the same time, and a lock that is held is held by a CPU that can go on:
  -- it has a piece to write, or frees the lock.
  Reach-owner :
      {w : c.State} {texts : List (List (List ℕ))} {s : Printers c}
      → Reach c w texts s
      → s.held ≡ true
      → (i : ℕ) × (t : Printers c) × Step c s t
        × (is_printing (s.at i) ≡ true)
        × ((j : ℕ) → is_printing (s.at j) ≡ true → j ≡ i)
  Reach-owner {s = s} r h = elim (Reach-Inv r) [
    | free f ↦ cc (f.unheld)
    | busy i rest b ↦
        let (t, step) = go_on i rest b.owner in
        (
          i,
          t,
          step,
          rw (b.owner),
          λ j e. elim (ℕ_discrete j i) [ yes q ↦ q | no q ↦ cc (b.others j q) ],
        )
  ]
