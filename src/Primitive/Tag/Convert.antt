-- ===== src/Primitive/Tag/Convert.antt =====
-- bacpypes3/primitivedata.py, `Tag.app_to_context` and `Tag.context_to_app`.
use bacpypes.Prelude.{ℕ, ◌<◌, ◌≡◌, refl, true, false, [], ltb, ◌==◌, arith}
use bacpypes.Pdu.{Result, ok, err, Bytes}
use bacpypes.Primitive.Tag.{
  application, Tag, boolean_number, new_application_tag, to_context, app_to_context,
  to_application_tag, context_to_app,
}

abbrev pub converted_back : ℕ → Result Tag → Result Tag
converted_back number (ok tag) = context_to_app number tag
converted_back number (err e) = err e

-- An application tag that is no Boolean, changed to a context tag of any number and back, is the
-- same.
pub context_to_app-app_to_context :
    (c number : ℕ) (d : Bytes)
    → number == boolean_number ≡ false
    → converted_back number (app_to_context c (new_application_tag number d))
      ≡ ok (new_application_tag number d)
unfolding app_to_context to_context context_to_app to_application_tag
context_to_app-app_to_context c number d h =
    rw (h, converted_back, context_to_app, to_application_tag, h) refl

-- A Boolean, whose value changes from length to data, is the same again.
pub context_to_app-app_to_context_boolean :
    (c v : ℕ)
    → v < 256
    → converted_back boolean_number (
        app_to_context c (record {
          tag_class = application;
          tag_number = boolean_number;
          tag_lvt = v;
          tag_data = [];
        }))
      ≡ ok (record {
        tag_class = application;
        tag_number = boolean_number;
        tag_lvt = v;
        tag_data = [];
      })
unfolding app_to_context to_context context_to_app to_application_tag
context_to_app-app_to_context_boolean c v h =
    let octet : ltb v 256 ≡ true = ground arith in rw octet refl
