-- ===== src/Conf.antt =====
-- lib/confParser.js: how a configuration is changed and written.
pub mod Lines
mod Tests
use manatee.Base.{Text, codes, List, [], ◌∷◌, ◌++◌, Outcome}
use manatee.Base.Objects.{Object, insert}

-- `set`
unfoldable pub set_value : Object Text → Text → Text → Object Text
set_value conf key value = insert key value conf

-- `key + ' = ' + conf[key]`
unfoldable pub conf_line : Text → Text → Text
conf_line key value = key ++ codes " = " ++ value

-- The text that `write` hands to `fs.writeFile`.
unfoldable pub conf_text : Object Text → Text
unfolding conf_line
conf_text [] = []
conf_text ((key, value) ∷ conf) = conf_line key value ++ b'\n' ∷ conf_text conf
