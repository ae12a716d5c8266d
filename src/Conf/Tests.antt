-- ===== src/Conf/Tests.antt =====
-- lib/confParser.js: a small configuration.
use manatee.Base.{Text, codes, [], ◌∷◌}
use manatee.Base.Objects.{Object}

abbrev conf : Object Text
conf = (codes "a", codes "1") ∷ (codes "b", codes "2") ∷ []
