-- ===== src/CachedState/Write.antt =====
-- A bulk write that returns has inserted its objects; the cache never touches the tables.
use chainpoint_core_erc.Prelude.{◌≡◌, refl, ap, ◌∙◌, Bool, true, List, [], ◌∷◌, if◌then◌else◌}
use chainpoint_core_erc.Exec.{Error, Result, ok, pure, throw, gets, ◌>>=◌}
use chainpoint_core_erc.Exec.Keeps.{Preorder, Keeps, keeps_rules, >>=-eq-ok}
use chainpoint_core_erc.World.{World, Outcome, done, refused, lost}
use chainpoint_core_erc.World.Calls.{call, execute, next_outcome, called, respond}
use chainpoint_core_erc.CachedState.Cached.{CachedTable}
use chainpoint_core_erc.CachedState.Bulk.{insert_statement, cache_new_rows, write_objects}
use chainpoint_core_erc.CachedState.Laws.{IsLawful}
use chainpoint_core_erc.CachedState.Tables.{insert_all}

module _ {A : Type 0} (t : CachedTable A A) (laws : IsLawful t) where
  abbrev same_rows : Preorder World
  same_rows = record {
    rel = λ v w. t.rows w ≡ t.rows v;
    rel_refl = λ w. refl;
    rel_trans = λ u v w p q. q ∙ p;
  }

  respond-rows :
      (o : Outcome) (e : Error) (f : World → World) (w : World)
      → ((v : World) → t.rows (f v) ≡ t.rows v)
      → t.rows (respond o e (λ v. (tt, f v)) w).1 ≡ t.rows w
  respond-rows done e f w h = h w
  respond-rows refused e f w h = refl
  respond-rows lost e f w h = h w

  execute-rows :
      (e : Error) (f : World → World)
      → ((v : World) → t.rows (f v) ≡ t.rows v)
      → Keeps same_rows (execute e f)
  unfolding execute call
  execute-rows e f h = record {
    at = λ w. respond-rows (next_outcome w.outcomes) e f (called w) h ∙ laws.rows-called w;
  }

  cache_new_rows-rows : (objs : List A) → Keeps same_rows (cache_new_rows t objs)
  unfolding cache_new_rows
  cache_new_rows-rows objs = search (keeps_rules, execute-rows, laws.rows-set_cache)

  respond-eq-ok :
      (o : Outcome) (e : Error) (f : World → World) (w : World)
      → (respond o e (λ v. (tt, f v)) w).0 ≡ ok tt
      → (respond o e (λ v. (tt, f v)) w).1 ≡ f w
  respond-eq-ok done e f w h = refl
  respond-eq-ok refused e f w h = absurd (cc h)
  respond-eq-ok lost e f w h = absurd (cc h)

  insert_statement-rows :
      (objs : List A) (w : World) {u : Unit {0}}
      → (insert_statement t objs w).0 ≡ ok u
      → t.rows (insert_statement t objs w).1 ≡ insert_all t.key w.clock objs (t.rows w)
  unfolding execute call throw
  insert_statement-rows [] w h = absurd (cc h)
  insert_statement-rows (a ∷ objs) w h =
      ap t.rows (respond-eq-ok (next_outcome w.outcomes) _ _ (called w) h)
      ∙ laws.rows-set_rows _ _
      ∙ ap (insert_all t.key w.clock (a ∷ objs)) (laws.rows-called w)

  rest-rows :
      (objs : List A)
      → Keeps same_rows (
          gets (λ w. w.redis) >>= λ redis.
          (if redis then cache_new_rows t objs else pure tt) >>= λ _. pure true)
  rest-rows objs = search (keeps_rules, cache_new_rows-rows) depth 7

  pub write_objects-rows :
      (objs : List A) (w : World) {b : Bool}
      → (write_objects t objs w).0 ≡ ok b
      → t.rows (write_objects t objs w).1 ≡ insert_all t.key w.clock objs (t.rows w)
  unfolding write_objects
  write_objects-rows objs w h =
      let (u, inserted, same, _) = >>=-eq-ok (insert_statement t objs) _ w h in
      ap (λ (p : Result Bool × World). t.rows p.1) same
      ∙ (rest-rows objs).at (insert_statement t objs w).1
      ∙ insert_statement-rows objs w inserted
