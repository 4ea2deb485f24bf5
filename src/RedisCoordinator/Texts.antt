-- ===== src/RedisCoordinator/Texts.antt =====
-- The texts of leases, as serializeLease writes them.
use event_driven_platform.Prelude.{Text, [], ◌∷◌, ◌≡◌, refl, ap, decimal-injective}
use event_driven_platform.Coordinator.{ReadExecutionLeaseReference}
use event_driven_platform.JavaScript.Quoting.{json_string-injective}
use event_driven_platform.RedisCoordinator.{serialize_lease}

abbrev tail_of : Text → Text
tail_of [] = []
tail_of (x ∷ t) = t

-- Leases that differ in their owner or in their version have different texts, whatever characters the
-- owner's name contains.
pub serialize_lease-injective :
    (l l' : ReadExecutionLeaseReference) → serialize_lease l ≡ serialize_lease l' → l ≡ l'
unfolding serialize_lease
serialize_lease-injective l l' e =
    let owners = json_string-injective l.owner_id l'.owner_id _ _ (ap tail_of e) in
    let versions = decimal-injective l.version l'.version [] (ap tail_of owners.1) in
    rw (owners.0, versions) refl
