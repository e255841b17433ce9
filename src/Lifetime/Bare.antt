-- ===== src/Lifetime/Bare.antt =====
-- A center without publishers, for the tests of the constructors and destructors.
use rproxy.Base.{ℕ, Bool, false, refl, []}
use rproxy.Base.Eq.{nat_eq}
use rproxy.Base.Maps.{find, has_key, contains}
use rproxy.Pubsub.Event.{PubType, pub_type_eq}
use rproxy.Pubsub.Center.{Center, set_of, receivers}
use rproxy.Lifetime.View.{View}

abbrev pub bare : Center
bare = record { publishers = []; subscribers = []; traffic = [] }

abbrev pub knows_none : ℕ → Bool
knows_none i = false

abbrev pub tells_none : ℕ → PubType → ℕ → Bool
tells_none i t x = false

pub bare-View : View bare knows_none tells_none
unfolding set_of receivers find has_key contains
bare-View = record {
  valid = record { rows = λ i h. refl; unique = λ i t. tt };
  known = λ i. refl;
  tells = λ i t x. refl;
}
