-- ===== src/Raft/Apply/Order.antt =====
-- raft1/raft.go: what the applier delivers.
use linearizable_kv_store.Prelude.{
  ◌+◌, ◌-◌, ◌≤◌, ◌≡◌, ◌≢◌, true, false, Option, none, some, get_elem?, refl, ap, subst, ltb, leb,
  ◌&&◌, arith, Bool-cases, Option-cases, inl, inr,
}
use mathlib.Core.Option.{some-injective}
use linearizable_kv_store.Prelude.Panic.{>>=-eq-some}
use linearizable_kv_store.Raft.{Raft, LogEntry}
use linearizable_kv_store.Raft.Apply.{
  ApplyMsg, Picked, deliver, again, wait, apply_pick, pick_command, snapshot_msg, command_msg,
  apply_done,
}

module _ {C : Type 0} where
  -- The next command after the last one applied: committed, from the log, and the last one applied
  -- once it has been taken.
  pub record NextCommand (rf : Raft C) (msg : ApplyMsg C) : Type 0 where
    pub kind : (msg.command_valid ≡ true) × (msg.snapshot_valid ≡ false)
    pub index : msg.command_index ≡ rf.last_applied + 1
    pub committed : msg.command_index ≤ rf.commit_index
    pub in_log :
        (entry : LogEntry C) × (get_elem? rf.log (msg.command_index - rf.last_included_index)
          ≡ some entry)
        × (entry.command ≡ msg.command)
    pub applied : (apply_done msg rf).last_applied ≡ msg.command_index

  -- The snapshot that waits, which is delivered once.
  pub record NextSnapshot (rf rf' : Raft C) (msg : ApplyMsg C) : Type 0 where
    pub kind : (msg.command_valid ≡ false) × (msg.snapshot_valid ≡ true)
    pub bytes : rf.pending_snapshot ≡ some msg.snapshot
    pub index : msg.snapshot_index ≡ rf.pending_snapshot_index
    pub once : rf'.pending_snapshot ≡ none
    pub applied : msg.snapshot_index ≤ (apply_done msg rf').last_applied

  pub data Delivers (rf rf' : Raft C) (msg : ApplyMsg C) : Type 0 where
    command : rf' ≡ rf → rf.pending_snapshot ≡ none → NextCommand rf msg → Delivers rf rf' msg
    snapshot : NextSnapshot rf rf' msg → Delivers rf rf' msg

  deliver_inj : (m m' : ApplyMsg C) → deliver m ≡ deliver m' → m ≡ m'
  deliver_inj m m' e = cc

  delivered :
      (rf : Raft C) {a b : Raft C} {m m' : ApplyMsg C}
      → ◌≡◌ {A = Option (Raft C × Picked C)} (some (a, deliver m)) (some (b, deliver m'))
      → Delivers rf a m
      → Delivers rf b m'
  delivered rf {a} {m} {m'} e d =
      let p = some-injective _ _ e in
      subst (λ x. Delivers rf x m') (ap (λ t. t.0) p)
        (subst (λ x. Delivers rf a x) (deliver_inj m m' (ap (λ t. t.1) p)) d)

  undelivered :
      (a : Raft C) {b : Raft C} {m : ApplyMsg C} (p : Picked C)
      → p ≢ deliver m
      → ◌≢◌ {A = Option (Raft C × Picked C)} (some (a, p)) (some (b, deliver m))
  undelivered a p h e = h (ap (λ t. t.1) (some-injective _ _ e))

  -- A message that the applier delivers is the snapshot that waits, if one does, which then waits no
  -- more; else it is the committed entry of the log right after the last one applied, which is the
  -- last one applied when the message has been taken and nothing has changed meanwhile.
  pub apply_pick-Delivers :
      (rf : Raft C) {rf' : Raft C} {msg : ApplyMsg C}
      → apply_pick rf ≡ some (rf', deliver msg)
      → Delivers rf rf' msg
  unfolding apply_pick pick_command snapshot_msg command_msg apply_done
  apply_pick-Delivers rf h = elim (Option-cases rf.pending_snapshot) [
    | inr (bytes, p) ↦ delivered rf (rw p at h) (
        snapshot (record {
          kind = (refl, refl);
          bytes = p;
          index = refl;
          once = refl;
          applied = ground arith;
        }))
    | inl p ↦
        elim (Bool-cases
          (ltb rf.last_applied rf.commit_index && leb rf.last_included_index rf.last_applied)) [
            | inr q ↦ absurd (undelivered _ wait (λ e. cc) (rw (p, q) at h))
            | inl q ↦ elim (Bool-cases (leb (rf.last_applied + 1) rf.last_included_index)) [
              | inl r ↦ absurd (undelivered _ again (λ e. cc) (rw (p, q, r) at h))
              | inr r ↦
                  let (entry, found, last) =
                    >>=-eq-some (get_elem? rf.log (rf.last_applied + 1 - rf.last_included_index)) _
                      (rw (p, q, r) at h) in
                  delivered rf last (
                    command (rw p refl) p (record {
                      kind = (refl, refl);
                      index = refl;
                      committed = ground arith;
                      in_log = (entry, found, refl);
                      applied = ground arith;
                    }))
            ]
          ]
  ]
