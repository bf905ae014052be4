-- ===== src/Queue/Keys.antt =====
-- The keys of the queue are distinct: two jobs have two records, and no list is another.
use text.Mathlib.TextLemmas.{append_cancel_left}
use kernexys.Prelude.{String, ◌≡◌, refl, ap, false, ◌==◌, eq_iff, arith}
use kernexys.Queue.Scripts.{queue_key, processing_key, job_key}

pub job_key-injective : (a b : String) → job_key a ≡ job_key b → a ≡ b
unfolding job_key
job_key-injective a b h = append_cancel_left "kernexys:inference:job:" a b h

pub ==-job_key : (a b : String) → (job_key a == job_key b) ≡ (a == b)
==-job_key a b =
    ground (arith, eq_iff a b, eq_iff (job_key a) (job_key b), job_key-injective a b, ap job_key)

pub ==-queue-processing : (queue_key == processing_key) ≡ false
unfolding queue_key processing_key
==-queue-processing = refl

pub ==-processing-queue : (processing_key == queue_key) ≡ false
unfolding queue_key processing_key
==-processing-queue = refl
