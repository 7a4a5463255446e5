-- ===== src/Container/Deploy/Converge.antt =====
-- A successful Deploy ends with exactly the desired names.
use libflexkube.Base.{String, true, false, not, List, [], ◌∷◌, ◌≡◌, arith, eq_iff, ap, ◌∙◌, sym}
use libflexkube.Base.Map.{has, has-delete, contains}
use libflexkube.Base.Exec.{Exec, pure, ◌>>=◌}
use libflexkube.Base.Exec.Keeps.{Keeps, Keeps-pure, Keeps-gets, keeps_rules}
use libflexkube.Base.Exec.Ensures.{
  Ensures, Ensures-bind, Ensures-bind-gets, Ensures-of_Keeps, Ensures-if, Ensures-wrap,
  Ensures-wrap_arg, Ensures-consequence, Ensures-and,
}
use libflexkube.Container.State.{StateMap}
use libflexkube.Container.Containers.{Containers, on_memory, drop_current}
use libflexkube.Container.Deploy.{
  ensure_up_to_date, ensure_new_container, create_new, remove_current, update_one, update_all,
  create_all,
}
use libflexkube.Container.Deploy.Names.{Grows, Grows-refl}
use libflexkube.Container.Deploy.Update.{
  ensure_up_to_date-Grows, ensure_new_container-Grows, Has, Keeps-Has, ensure_exists-Has,
}
use libflexkube.Memory.{Memory}

create_new-Has : (name : String) → Ensures (λ _. Unit {0}) (create_new name) (λ _ s. Has name s)
unfolding create_new
create_new-Has name =
    Ensures-bind _ _ (Ensures-of_Keeps _ (record { at = λ s h. tt }))
      λ _. Ensures-wrap_arg _ _ _ (ensure_exists-Has name)

ensure_new_container-Has :
    (name : String) → Ensures (λ _. Unit {0}) (ensure_new_container name) (λ _ s. Has name s)
unfolding ensure_new_container
ensure_new_container-Has name = Ensures-bind-gets _ _ λ current.
    Ensures-if (has current name) _ _
      (λ t.
        Ensures-consequence _ (λ s h. h) (λ a s h. ap (λ m. has m name) h.1 ∙ t)
          (Ensures-of_Keeps _ (Keeps-pure tt)))
      (λ _. Ensures-consequence _ (λ s h. tt) (λ a s h. h) (create_new-Has name))

-- Every listed name is there.
abbrev pub HasAll : List String → Containers → Type 0
HasAll names s = (j : String) → contains names j ≡ true → Has j s

HasAll-nil : (s : Containers) → HasAll [] s
unfolding contains
HasAll-nil s j q = cc

HasAll-cons :
    (name : String) (names : List String) (s : Containers)
    → Has name s
    → HasAll names s
    → HasAll (name ∷ names) s
unfolding contains
HasAll-cons name names s h all j q = ground (arith, eq_iff name j, all j)

pub create_all-Grows : (c : Containers) (names : List String) → Keeps (Grows c) (create_all names)
unfolding create_all
create_all-Grows c [] = Keeps-pure tt
create_all-Grows c (name ∷ names) =
    let rest = create_all-Grows c names in search (keeps_rules, ensure_new_container-Grows) depth 10

pub create_all-HasAll :
    (names : List String) → Ensures (λ _. Unit {0}) (create_all names) (λ _ s. HasAll names s)
unfolding create_all
create_all-HasAll [] =
    Ensures-consequence _ (λ s h. h) (λ a s h. HasAll-nil s) (Ensures-of_Keeps _ (Keeps-pure tt))
create_all-HasAll (name ∷ names) =
    Ensures-bind _ _ (Ensures-wrap_arg _ _ _ (ensure_new_container-Has name)) λ _.
      Ensures-consequence _ (λ s h. (h, tt)) (λ a s h. HasAll-cons name names s h.0 h.1)
        (Ensures-and _ (Ensures-of_Keeps _ (Keeps-Has name _ (λ c. create_all-Grows c names)))
          (create_all-HasAll names))

-- The desired state is `d`, all of it is there, and what is not desired is still to be visited.
pub record Pending (d : StateMap) (todo : List String) (s : Containers) : Type 0 where
  pub desired : s.desired_state ≡ d
  pub covered : (j : String) → has d j ≡ true → Has j s
  pub left : (j : String) → has d j ≡ false → Has j s → contains todo j ≡ true

up_to_date-Pending :
    (d : StateMap) (name : String) (names : List String) (s : Containers)
    → has d name ≡ true
    → Pending d (name ∷ names) s
    → Pending d names (ensure_up_to_date name s).1
unfolding contains
up_to_date-Pending d name names s h p = record {
  desired = g.desired ∙ p.desired;
  covered = λ j q. g.kept j (p.covered j q);
  left = λ j q r.
      ground (
        arith,
        eq_iff name j,
        p.left j q (sym (g.outside j (ap (λ m. has m j) p.desired ∙ q)) ∙ r),
      );
}
  where
    g : Grows s (ensure_up_to_date name s).1
    g = (ensure_up_to_date-Grows s name (ap (λ m. has m name) p.desired ∙ h)).at s (Grows-refl s)

dropped-Pending :
    (d : StateMap) (name : String) (names : List String) (s : Containers)
    → has d name ≡ false
    → Pending d (name ∷ names) s
    → Pending d names (drop_current name s).1
unfolding contains drop_current ◌>>=◌
dropped-Pending d name names s h p = record {
  desired = p.desired;
  covered = λ j q. ground (arith, has-delete s.current_state name j, eq_iff name j, p.covered j q);
  left = λ j q r. ground (arith, has-delete s.current_state name j, eq_iff name j, p.left j q);
}

absent-Pending :
    (d : StateMap) (name : String) (names : List String) (s : Containers)
    → has s.current_state name ≡ false
    → Pending d (name ∷ names) s
    → Pending d names s
unfolding contains
absent-Pending d name names s h p = record {
  desired = p.desired;
  covered = p.covered;
  left = λ j q r. ground (arith, eq_iff name j, p.left j q r);
}

on_memory-Pending {ℓ} :
    {A : Type ℓ} (d : StateMap) (todo : List String) (m : Exec Memory A)
    → Keeps (Pending d todo) (on_memory m)
unfolding on_memory
on_memory-Pending d todo m = record {
  at = λ s p. record { desired = p.desired; covered = p.covered; left = p.left };
}

remove_current-Pending :
    (d : StateMap) (name : String) (names : List String)
    → has d name ≡ false
    → Ensures (Pending d (name ∷ names)) (remove_current name) (λ _ s. Pending d names s)
unfolding remove_current
remove_current-Pending d name names h =
    Ensures-bind _ _ (Ensures-of_Keeps _ (Keeps-gets _)) λ current.
      Ensures-bind _ _ (Ensures-of_Keeps _ (on_memory-Pending d (name ∷ names) _))
        λ _. record { at = λ s p a e. dropped-Pending d name names s h p }

update_one-Pending :
    (d : StateMap) (name : String) (names : List String)
    → Ensures (Pending d (name ∷ names)) (update_one name) (λ _ s. Pending d names s)
unfolding update_one
update_one-Pending d name names = Ensures-bind-gets _ _ λ c.
    Ensures-if (not (has c.current_state name)) _ _ (λ t. absent c t)
      λ t.
        Ensures-if (has c.desired_state name) _ _ (λ q. Ensures-wrap_arg _ _ _ (kept c q))
          (λ q. Ensures-wrap _ _ (removed c q))
  where
    Start : Containers → Containers → Type 0
    Start c s = Pending d (name ∷ names) s × (s ≡ c)

    absent :
        (c : Containers)
        → not (has c.current_state name) ≡ true
        → Ensures (Start c) (pure (tt {0})) (λ _ s. Pending d names s)
    absent c t =
        Ensures-consequence _ (λ s h. h)
          (λ a s h.
            absent-Pending d name names s
              (ground (arith, ap (λ (r : Containers). has r.current_state name) h.1)) h.0)
          (Ensures-of_Keeps _ (Keeps-pure tt))

    kept :
        (c : Containers)
        → has c.desired_state name ≡ true
        → Ensures (Start c) (ensure_up_to_date name) (λ _ s. Pending d names s)
    kept c q = record {
      at = λ s h a e.
          up_to_date-Pending d name names s
            (ap (λ m. has m name) (sym h.0.desired)
              ∙ (ap (λ (r : Containers). has r.desired_state name) h.1 ∙ q))
            h.0;
    }

    removed :
        (c : Containers)
        → has c.desired_state name ≡ false
        → Ensures (Start c) (remove_current name) (λ _ s. Pending d names s)
    removed c q = record {
      at = λ s h a e.
          (remove_current-Pending d name names (
              ap (λ m. has m name) (sym h.0.desired)
              ∙ (ap (λ (r : Containers). has r.desired_state name) h.1 ∙ q))).at
            s h.0 a e;
    }

pub update_all-Pending :
    (d : StateMap) (names : List String)
    → Ensures (Pending d names) (update_all names) (λ _ s. Pending d [] s)
unfolding update_all
update_all-Pending d [] = Ensures-of_Keeps _ (Keeps-pure tt)
update_all-Pending d (name ∷ names) =
    Ensures-bind _ _ (update_one-Pending d name names) λ _. update_all-Pending d names
