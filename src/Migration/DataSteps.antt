-- ===== src/Migration/DataSteps.antt =====
-- How the data movement of `start_copy` and `verify` ends: with matching digests, with a FAILED
-- record, or, in `verify`, with an error that leaves the record as it was.
use mathlib.Core.Path.{subst}
use vsector.Base.{
  String, ◌≡◌, refl, sym, ap, ◌∙◌, false, Option, some, arith, ◌⊎◌, inl, inr, Bool-cases,
}
use vsector.Errors.{Error, is_verification_error}
use vsector.Exec.{Result, ok, err, Exec}
use vsector.Exec.Ends.{Ends, Ends-try_except, Ends-bind-modify, Ends-pure, Ends-lift, Ends-weaken}
use vsector.Shard.{Shard}
use vsector.Etcd
use vsector.Etcd.{Etcd}
use vsector.Migration.State.{MigrationState, terminal}
use vsector.Migration.Record.{ShardMigration, FailureNote}
use vsector.Migration.Boundary.{Transfer}
use vsector.Migration.Checks.{World, failed_record}
use vsector.Migration.{on_disk, fail_and_raise}
use vsector.Migration.Copy.{
  copy_note, copy_raised, copy_fails, verify_fails, copy_data, verify_data,
}
use vsector.Migration.Writes.{
  SameJob, SameJob-refl, failed_record-SameJob, failed_record-state, fail_and_raise_lem,
}

pub SameJob-trans : {m m' m'' : ShardMigration} → SameJob m m' → SameJob m' m'' → SameJob m m''
SameJob-trans h k = record {
  migration_id = k.migration_id ∙ h.migration_id;
  namespace = k.namespace ∙ h.namespace;
  shard_id = k.shard_id ∙ h.shard_id;
  source = k.source ∙ h.source;
  target = k.target ∙ h.target;
  source_version = k.source_version ∙ h.source_version;
}

SameJob-source_digest :
    (m : ShardMigration) (d : Option String) → SameJob m (record m { source_digest = d })
SameJob-source_digest m d = record {
  migration_id = refl;
  namespace = refl;
  shard_id = refl;
  source = refl;
  target = refl;
  source_version = refl;
}

-- The store with a record put in, for which `C` holds.
pub record PutOf (C : ShardMigration → Type 0) (e t : Etcd) : Type 0 where
  pub record_put : ShardMigration
  pub fits : C record_put
  pub result : t ≡ Etcd.put_migration record_put e

abbrev pub FailedOf : ShardMigration → ShardMigration → Type 0
FailedOf m m' = SameJob m m' × (m'.state ≡ MigrationState.failed)

module _ {Disk : Type 0} where
  abbrev pub DiskOnly : {A : Type 0} → Exec Disk A → World Disk → Result A × World Disk → Type 0
  DiskOnly m w (r, t) = (r ≡ (m w.disk).0) × (t.etcd ≡ w.etcd)

  pub on_disk-DiskOnly :
      {A : Type 0} (m : Exec Disk A) (w : World Disk) → Ends (on_disk m) w (DiskOnly m w)
  unfolding on_disk
  on_disk-DiskOnly m w = record { outcome = (refl, refl) }

  -- A failing step marks the record, wherever the storage stands.
  abbrev Fails : {A : Type 0} → ShardMigration → Etcd → Result A × World Disk → Type 0
  Fails m e (ok _, t) = ⊥
  Fails m e (err _, t) = PutOf (FailedOf m) e t.etcd

  fail_and_raise-Fails :
      {A : Type 0} (note : FailureNote) (x : Error) (m : ShardMigration) (w : World Disk)
      → terminal m.state ≡ false
      → Ends (fail_and_raise {A = A} note x m) w (Fails {A = A} m w.etcd)
  fail_and_raise-Fails note x m w live = record {
    outcome = subst (Fails m w.etcd) (sym (fail_and_raise_lem note x m w)) (record {
      record_put = failed_record w.now note m;
      fits = (failed_record-SameJob w.now note m, failed_record-state w.now note m live);
      result = refl;
    });
  }

  copy_fails-Fails :
      {A : Type 0} (m : ShardMigration) (e : Error) (w : World Disk)
      → terminal m.state ≡ false
      → Ends (copy_fails m e) w (Fails {A = A} m w.etcd)
  unfolding copy_fails
  copy_fails-Fails m e w live = fail_and_raise-Fails (copy_note e) (copy_raised m e) m w live

-- The record after a copy that returned: both digests, and they are one.
abbrev pub CopiedOf : ShardMigration → ShardMigration → Type 0
CopiedOf m m' = (d : String) × (m' ≡ record m { source_digest = some d; target_digest = some d })

-- The record after a verification that returned: the digest found, which is the source's one
-- where that is known.
abbrev pub VerifiedOf : ShardMigration → ShardMigration → Type 0
VerifiedOf m m' =
    (d : String) × (m' ≡ record m { target_digest = some d })
    × ((x : String) → m.source_digest ≡ some x → d ≡ x)

pub CopiedOf-SameJob : (m n : ShardMigration) → CopiedOf m n → SameJob m n
CopiedOf-SameJob m n (d, result) = ground arith

pub VerifiedOf-SameJob : (m n : ShardMigration) → VerifiedOf m n → SameJob m n
VerifiedOf-SameJob m n (d, result, _) = ground arith

module _ {Disk Payload : Type 0} (transfer : Transfer Disk Payload) where
  abbrev pub Copied : ShardMigration → Etcd → Result ShardMigration × World Disk → Type 0
  Copied m e (ok m', t) = CopiedOf m m' × (t.etcd ≡ Etcd.put_migration m' e)
  Copied m e (err _, t) = PutOf (FailedOf m) e t.etcd

  Fails→Copied :
      (m : ShardMigration) (e : Etcd) (r : Result ShardMigration × World Disk)
      → Fails m e r
      → Copied m e r
  Fails→Copied m e (ok _, t) h = absurd h
  Fails→Copied m e (err _, t) h = h

  -- A failure of `m'`, which differs from `m` in a digest only, at a store that is still `e`.
  failing_copy :
      (m m' : ShardMigration) (x : Error) (e : Etcd) (w : World Disk)
      → SameJob m m'
      → terminal m'.state ≡ false
      → w.etcd ≡ e
      → Ends (copy_fails m' x) w (Copied m e)
  failing_copy m m' x e w job live at_e =
      Ends-weaken (weaker m m' e w job at_e) (copy_fails-Fails m' x w live)
    where
      weaker :
          (m m' : ShardMigration) (e : Etcd) (w : World Disk)
          → SameJob m m'
          → w.etcd ≡ e
          → (r : Result ShardMigration × World Disk) → Fails m' w.etcd r
          → Copied m e r
      weaker m m' e w job at_e (ok _, t) h = absurd h
      weaker m m' e w job at_e (err _, t) h = record {
        record_put = h.record_put;
        fits = (SameJob-trans job h.fits.0, h.fits.1);
        result = h.result ∙ ap (Etcd.put_migration h.record_put) at_e;
      }

  pub copy_data-Copied :
      (m : ShardMigration) (s : Shard) (w : World Disk)
      → terminal m.state ≡ false
      → Ends (copy_data transfer m s) w (Copied m w.etcd)
  unfolding copy_data
  copy_data-Copied m s w live =
      Ends-try_except _ _ _ w (on_disk-DiskOnly _ w)
        (λ x t q. failing_copy m m x w.etcd t (SameJob-refl m) live q.1)
        λ export t q.
          Ends-try_except _ _ _ t (on_disk-DiskOnly _ t)
            (λ x u p. failing_copy m m x w.etcd u (SameJob-refl m) live (p.1 ∙ q.1))
            λ _ u p.
              Ends-try_except _ _ _ u (on_disk-DiskOnly _ u)
                (λ x v o.
                  failing_copy m _ x w.etcd v (SameJob-source_digest m _) live (o.1 ∙ p.1 ∙ q.1))
                λ actual v o. Ends-bind-modify _ _ v (
                  Ends-pure _ _ (
                    (
                      transfer.digest export,
                      ap
                          (λ a. record m {
                            source_digest = some (transfer.digest export);
                            target_digest = some a;
                          })
                          (transfer.verify_expected m.target_node_id s (transfer.digest export)
                            actual u.disk (sym o.0)),
                    ),
                    ap
                        (Etcd.put_migration (record m {
                          source_digest = some (transfer.digest export);
                          target_digest = some actual;
                        }))
                        (o.1 ∙ p.1 ∙ q.1),
                  ))

  abbrev pub Verified : ShardMigration → Etcd → Result ShardMigration × World Disk → Type 0
  Verified m e (ok m', t) = VerifiedOf m m' × (t.etcd ≡ Etcd.put_migration m' e)
  Verified m e (err x, t) =
      ((is_verification_error x ≡ false) × (t.etcd ≡ e)) ⊎ PutOf (FailedOf m) e t.etcd

  verify_fails-Verified :
      (m : ShardMigration) (x : Error) (e : Etcd) (w : World Disk)
      → terminal m.state ≡ false
      → w.etcd ≡ e
      → Ends (verify_fails m x) w (Verified m e)
  unfolding verify_fails
  verify_fails-Verified m x e w live at_e = elim (Bool-cases (is_verification_error x)) [
    | inl mismatch ↦ rw mismatch (
        Ends-weaken (weaker m e w at_e)
          (fail_and_raise-Fails (FailureNote.verification_error x) x m w live))
    | inr other ↦ rw other (Ends-lift _ w (inl (other, at_e)))
  ]
    where
      weaker :
          (m : ShardMigration) (e : Etcd) (w : World Disk)
          → w.etcd ≡ e
          → (r : Result ShardMigration × World Disk) → Fails m w.etcd r
          → Verified m e r
      weaker m e w at_e (ok _, t) h = absurd h
      weaker m e w at_e (err _, t) h = inr (record {
        record_put = h.record_put;
        fits = h.fits;
        result = h.result ∙ ap (Etcd.put_migration h.record_put) at_e;
      })

  pub verify_data-Verified :
      (m : ShardMigration) (s : Shard) (w : World Disk)
      → terminal m.state ≡ false
      → Ends (verify_data transfer m s) w (Verified m w.etcd)
  unfolding verify_data
  verify_data-Verified m s w live =
      Ends-try_except _ _ _ w (on_disk-DiskOnly _ w)
        (λ x t q. verify_fails-Verified m x w.etcd t live q.1)
        λ actual t q. Ends-bind-modify _ _ t (
          Ends-pure _ _ (
            (
              actual,
              refl,
              λ x known. transfer.verify_expected m.target_node_id s x actual w.disk (
                  sym (
                    subst (λ o. ok actual ≡ (transfer.verify_shard m.target_node_id s o w.disk).0)
                      known q.0)),
            ),
            ap (Etcd.put_migration (record m { target_digest = some actual })) q.1,
          ))
