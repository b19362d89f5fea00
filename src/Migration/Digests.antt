-- ===== src/Migration/Digests.antt =====
-- The digests of a record against its state: from COPYING on, and until a failure or a
-- cancellation, both are there and are one.
use mathlib.Core.Path.{subst}
use vsector.Base.{String, ◌≡◌, refl, sym, ap, ◌∙◌, Bool, true, false, some, inl, inr}
use vsector.Dict.{lookup, lookup-insert_cases}
use vsector.Etcd
use vsector.Etcd.{Etcd}
use vsector.Migration.State.{MigrationState}
use vsector.Migration.Record.{ShardMigration}
use vsector.Migration.Writes.{Table, put_record, Write, Keeps, Keeps-refl, Keeps-trans, Keeps-put}

unfoldable pub past_copy : MigrationState → Bool
past_copy MigrationState.copying = true
past_copy MigrationState.verifying = true
past_copy MigrationState.committing = true
past_copy MigrationState.completed = true
past_copy _ = false

pub record Agreed (m : ShardMigration) : Type 0 where
  pub digest : String
  pub source : m.source_digest ≡ some digest
  pub target : m.target_digest ≡ some digest

abbrev pub Agrees : ShardMigration → Type 0
Agrees m = past_copy m.state ≡ true → Agreed m

pub record IsVerified (d : Table) : Type 0 where
  pub agrees : (k : String) (m : ShardMigration) → lookup k d ≡ some m → Agrees m

pub IsVerified-put :
    (m : ShardMigration) (d : Table) → Agrees m → IsVerified d → IsVerified (put_record m d)
IsVerified-put m d fits v = record {
  agrees = λ k n found. elim (lookup-insert_cases m.migration_id k m d n found) [
    | inl (_, same) ↦ subst Agrees same fits
    | inr (_, old) ↦ v.agrees k n old
  ];
}

-- A record that is overwritten at once does not count.
pub IsVerified-put_twice :
    (m n : ShardMigration) (d : Table)
    → n.migration_id ≡ m.migration_id
    → Agrees n
    → IsVerified d
    → IsVerified (put_record n (put_record m d))
IsVerified-put_twice m n d same fits v = record {
  agrees = λ k x found. elim (lookup-insert_cases n.migration_id k n (put_record m d) x found) [
    | inl (_, eq) ↦ subst Agrees eq fits
    | inr (other, old) ↦ elim (lookup-insert_cases m.migration_id k m d x old) [
      | inl (at_k, _) ↦ absurd (other (same ∙ at_k))
      | inr (_, older) ↦ v.agrees k x older
    ]
  ];
}

-- A call that changes no owner and no member, writes by the rules, and keeps digests agreeing.
pub record Sound (e t : Etcd) : Type 0 where
  pub keeps : Keeps e t
  pub verified : IsVerified e.migrations → IsVerified t.migrations

pub Sound-eq : {e t : Etcd} → t ≡ e → Sound e t
Sound-eq {e} same = subst (Sound e) (sym same) (record { keeps = Keeps-refl e; verified = λ v. v })

pub Sound-put :
    {e t : Etcd} (m : ShardMigration)
    → Write e.migrations (put_record m e.migrations)
    → (IsVerified e.migrations → Agrees m)
    → t ≡ Etcd.put_migration m e
    → Sound e t
Sound-put {e} m w fits same = record {
  keeps = Keeps-put m w same;
  verified = λ v.
      subst (λ x. IsVerified x) (sym (ap (λ (x : Etcd). x.migrations) same))
        (IsVerified-put m e.migrations (fits v) v);
}

pub Sound-trans : {e t u : Etcd} → Sound e t → Sound t u → Sound e u
Sound-trans h k = record {
  keeps = Keeps-trans h.keeps k.keeps;
  verified = λ v. k.verified (h.verified v);
}

-- Two writes of one record, of which the second has the digests.
pub Sound-put_twice :
    {e u : Etcd} (m n : ShardMigration)
    → Write e.migrations (put_record m e.migrations)
    → Write (put_record m e.migrations) (put_record n (put_record m e.migrations))
    → n.migration_id ≡ m.migration_id
    → (IsVerified e.migrations → Agrees n)
    → u ≡ Etcd.put_migration n (Etcd.put_migration m e)
    → Sound e u
Sound-put_twice {e} {u} m n first second same fits at_u = record {
  keeps =
      Keeps-trans (Keeps-put m first refl) (Keeps-put {e = Etcd.put_migration m e} n second at_u);
  verified = λ v.
      subst (λ x. IsVerified x) (sym (ap (λ (x : Etcd). x.migrations) at_u))
        (IsVerified-put_twice m n e.migrations same (fits v) v);
}

-- Before the copy, and after a failure or a cancellation, nothing is asked of the digests.
pub Agrees-early : (m : ShardMigration) → past_copy m.state ≡ false → Agrees m
Agrees-early m early past = cc
