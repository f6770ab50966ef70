-- ===== src/Yield/Steps.antt =====
-- src/bots/yield_airdrop.py: what each write of an airdrop does to the sums by asset.
use options_protocol_backend.Prelude.{
  ℕ, ◌+◌, ◌*◌, ◌≤◌, Bool, true, false, ◌≡◌, refl, Option, none, some, List, [], ◌∷◌, ◌++◌, filter,
  ◌==◌, arith,
}
use options_protocol_backend.Prelude.Text.{Text, truthy}
use options_protocol_backend.Exec.{Exn, pure, try_except, ◌>>◌}
use options_protocol_backend.Exec.Post.{
  Post, Outcome, Post-pure, Post-if, Post-bind, Post-try_except, Post-weaken, Post-bind-lift,
}
use options_protocol_backend.Yield.{Allocation, sum_amounts}
use options_protocol_backend.Yield.Tables.{
  Distribution, AllocationRow, World, Env, next_tick, on_database, key_taken, has_distribution,
  allocation_rows, is_pending_of, mark_paid,
}
use options_protocol_backend.Yield.Airdrop.{
  transfer_fee_to_treasury, insert_distribution, save_allocations, select_pending, update_delivered,
  sent_or_failed, send_allocation, deliver_allocation, distribute_allocations,
}
use options_protocol_backend.Yield.Shares.{whole, whole_and_part}
use options_protocol_backend.Yield.Owed.{
  only, owed, Fresh, has_distribution-new, Backed-append, Backed-Fresh, Backed-mark_paid, For,
  Backed-insert, owed-select,
}
use options_protocol_backend.Yield.Rules.{
  Reserves, Conserved, Opened, Reserves-Conserved, on_database-Outcome, Post-send,
}

module _ (env : Env) where
  Post-update_delivered :
      (id tx : Text) (extra : Text → ℕ)
      → Post
          (Reserves extra)
          (update_delivered env id tx)
          (λ _. Reserves extra)
          (λ _. Reserves extra)
  unfolding update_delivered
  Post-update_delivered id tx extra = record {
    at = λ w h.
        on_database-Outcome (λ _. Reserves extra) (Reserves extra) (env.database w.tick) (λ _. tt)
          (λ v. record v { allocations = mark_paid id tx v.allocations }) w
          (Backed-mark_paid w.distributions id tx w.allocations h.0, h.1) h;
  }

  Reserves-less : (n e : Text → ℕ) (w : World) → Reserves (λ a. n a + e a) w → Reserves e w
  Reserves-less n e w h = (h.0, (λ a. omega (arith, h.1 a)))

  Post-sent_or_failed :
      (id : Text) (o : Option Text) (extra : Text → ℕ)
      → Post (Reserves extra) (sent_or_failed env id o) (λ _. Reserves extra) (λ _. Conserved)
  Post-sent_or_failed id none extra = Post-pure false (λ w h. h)
  Post-sent_or_failed id (some tx) extra =
      Post-bind {I = λ _. Reserves extra}
        (Post-weaken (Post-update_delivered id tx extra) (λ w h. h) (λ _ w h. h)
          (λ _ w h. Reserves-Conserved extra w h))
        (λ _. Post-pure true (λ w h. h))

  Post-send_allocation :
      (x : Allocation) (recipient : Text) (extra : Text → ℕ)
      → Post
          (Reserves (λ a. only x.asset x.amount a * whole + extra a))
          (try_except (send_allocation env x recipient) (λ e. pure none))
          (λ _. Reserves extra)
          (λ _. Conserved)
  Post-send_allocation x recipient extra =
      Post-try_except {E = λ _. Reserves extra}
        (Post-bind {I = λ _. Reserves extra}
          (Post-weaken (Post-send env (λ _ _. Unit) extra x.asset recipient x.amount)
            (λ w h. (h, tt)) (λ _ w h. h.0) (λ _ w h. h.0))
          (λ tx. Post-pure (some tx) (λ w h. h)))
        (λ e. Post-pure none (λ w h. h))

  Post-deliver_allocation :
      (r : AllocationRow) (extra : Text → ℕ)
      → Post
          (Reserves (λ a. only r.allocation.asset r.allocation.amount a * whole + extra a))
          (deliver_allocation env r)
          (λ _. Reserves extra)
          (λ _. Conserved)
  unfolding deliver_allocation
  Post-deliver_allocation r extra =
      Post-if (truthy (env.asset_address r.allocation.asset)) _ _
        (λ e.
          Post-bind-lift (env.to_checksum_address r.allocation.user_address) _
            (λ recipient e0.
              Post-bind {I = λ _. Reserves extra}
                (Post-send_allocation r.allocation recipient extra)
                (λ o. Post-sent_or_failed r.id o extra))
            (λ x w h.
              Reserves-Conserved
                (λ a. only r.allocation.asset r.allocation.amount a * whole + extra a) w h))
        (λ e. Post-pure false (λ w h.
          Reserves-less (λ a. only r.allocation.asset r.allocation.amount a * whole) extra w h))

  pub Post-distribute_allocations :
      (rs : List AllocationRow) (counts : ℕ × ℕ)
      → Post
          (Reserves (λ a. owed a rs * whole))
          (distribute_allocations env rs counts)
          (λ _. Conserved)
          (λ _. Conserved)
  unfolding distribute_allocations owed
  Post-distribute_allocations [] counts = Post-pure counts (λ w h. Reserves-Conserved (λ a. 0) w h)
  Post-distribute_allocations (r ∷ rs) counts =
      Post-bind {I = λ _. Reserves (λ a. owed a rs * whole)}
        (Post-weaken (Post-deliver_allocation r (λ a. owed a rs * whole))
          (λ w h. (h.0, (λ a. omega (arith, h.1 a)))) (λ _ w h. h) (λ _ w h. h))
        (λ done. Post-distribute_allocations rs _)

  -- the pending rows of the distribution are covered
  abbrev pub Saved : Text → World → Type 0
  Saved id w = Reserves (λ a. owed a (filter (is_pending_of id) w.allocations) * whole) w

  pub Post-select_pending :
      (id : Text)
      → Post
          (Saved id)
          (select_pending env id)
          (λ rs. Reserves (λ a. owed a rs * whole))
          (λ _. Conserved)
  unfolding select_pending
  Post-select_pending id = record {
    at = λ w h.
        on_database-Outcome (λ rs. Reserves (λ a. owed a rs * whole)) Conserved
          (env.database w.tick) (λ v. filter (is_pending_of id) v.allocations) (λ v. v) w h
          (Reserves-Conserved (λ a. owed a (filter (is_pending_of id) w.allocations) * whole) w h);
  }

  saved :
      (ids : ℕ → Text) (id asset : Text) (n : ℕ) (xs : List Allocation) (w : World)
      → For id asset xs
      → sum_amounts xs * whole ≤ n * whole_and_part
      → Opened id (λ a. only asset n a * whole_and_part) w
      → Saved id (record w { allocations = w.allocations ++ allocation_rows ids 0 xs })
  saved ids id asset n xs w f le ((b, h), (fresh, there)) = (
    Backed-insert ids 0 w.distributions id asset w.allocations xs there f b,
    (λ a. ground (arith, le, h a, owed-select ids 0 id asset a w.allocations xs fresh f)),
  )

  owed-none :
      (id a : Text) (rows : List AllocationRow)
      → Fresh id rows
      → owed a (filter (is_pending_of id) rows) ≡ 0
  unfolding owed
  owed-none id a [] h = refl
  owed-none id a (r ∷ rs) (e, h) = rw e (owed-none id a rs h)

  unsaved :
      (id asset : Text) (n : ℕ) (w : World)
      → Opened id (λ a. only asset n a * whole_and_part) w
      → Saved id w
  unsaved id asset n w ((b, h), (fresh, there)) =
      (b, (λ a. omega (arith, h a, owed-none id a w.allocations fresh)))

  pub Post-save_allocations :
      (id asset : Text) (n : ℕ) (xs : List Allocation)
      → For id asset xs
      → sum_amounts xs * whole ≤ n * whole_and_part
      → Post
          (Opened id (λ a. only asset n a * whole_and_part))
          (save_allocations env xs)
          (λ _. Saved id)
          (λ _. Conserved)
  unfolding save_allocations
  Post-save_allocations id asset n [] f le = Post-pure tt (λ w h. unsaved id asset n w h)
  Post-save_allocations id asset n (x ∷ xs) f le = record {
    at = λ w h.
        on_database-Outcome (λ _. Saved id) Conserved (env.database w.tick) (λ _. tt)
          (λ v. record v {
            allocations = v.allocations ++ allocation_rows (env.row_id w.tick) 0 (x ∷ xs);
          })
          w (saved (env.row_id w.tick) id asset n (x ∷ xs) (next_tick w) f le h)
          (Reserves-Conserved (λ a. only asset n a * whole_and_part) w h.0);
  }

  inserted :
      (taken_ : Bool) (o : Option Exn) (id : Text) (d : Distribution) (extra : Text → ℕ) (w : World)
      → d.id ≡ id
      → has_distribution id w.distributions ≡ taken_
      → Reserves extra w
      → Outcome
          (λ i. Opened i extra)
          (λ _. Conserved)
          (on_database
            (key_taken taken_ o)
            (λ v. id)
            (λ v. record v { distributions = v.distributions ++ d ∷ [] })
            w)
  inserted true o id d extra w e t h = Reserves-Conserved extra w h
  inserted false o id d extra w e t (b, h) =
      on_database-Outcome (λ i. Opened i extra) Conserved o (λ v. id)
        (λ v. record v { distributions = v.distributions ++ d ∷ [] }) w
        (
          (Backed-append w.distributions d w.allocations b, h),
          (
            Backed-Fresh id w.distributions w.allocations t b,
            has_distribution-new id w.distributions d e,
          ),
        )
        (Reserves-Conserved extra w (b, h))

  pub Post-insert_distribution :
      (tx asset : Text) (total fee period_start period_end : ℕ) (extra : Text → ℕ)
      → Post
          (Reserves extra)
          (insert_distribution env tx asset total fee period_start period_end)
          (λ id. Opened id extra)
          (λ _. Conserved)
  unfolding insert_distribution
  Post-insert_distribution tx asset total fee period_start period_end extra = record {
    at = λ w h.
        inserted (has_distribution (env.new_id w.tick) w.distributions) (env.database w.tick)
          (env.new_id w.tick)
          (record {
            id = env.new_id w.tick;
            harvest_tx_hash = tx;
            asset = asset;
            total_yield = total;
            platform_fee = fee;
            period_start = period_start;
            period_end = period_end;
          })
          extra w refl refl h;
  }

  -- the fee is set aside, sent or not
  Opened-less :
      (id : Text) (n e : Text → ℕ) (w : World) → Opened id (λ a. n a + e a) w → Opened id e w
  Opened-less id n e w h = (Reserves-less n e w h.0, h.1)

  pub Post-fee :
      (id asset : Text) (fee : ℕ) (extra : Text → ℕ)
      → Post
          (Opened id (λ a. only asset fee a * whole + extra a))
          (try_except (transfer_fee_to_treasury env asset fee >> pure tt) (λ e. pure tt))
          (λ _. Opened id extra)
          (λ _. Conserved)
  unfolding transfer_fee_to_treasury
  Post-fee id asset fee extra =
      Post-try_except {E = λ _. Opened id extra}
        (Post-bind {I = λ _. Opened id extra}
          (Post-if (fee == 0) _ _
            (λ e. Post-pure none (λ w h. Opened-less id (λ a. only asset fee a * whole) extra w h))
            (λ e.
              Post-if (truthy (env.asset_address asset)) _ _
                (λ e1.
                  Post-bind {I = λ _. Opened id extra}
                    (Post-send env (λ ds rows. Fresh id rows × (has_distribution id ds ≡ true))
                      extra asset env.treasury fee)
                    (λ tx. Post-pure (some tx) (λ w h. h)))
                (λ e1.
                  Post-pure none
                    (λ w h. Opened-less id (λ a. only asset fee a * whole) extra w h))))
          (λ o. Post-pure tt (λ w h. h)))
        (λ e. Post-pure tt (λ w h. h))
