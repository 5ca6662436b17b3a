-- ===== src/Templates/Table.antt =====
-- The table `FOLLOW_UP_TEMPLATES` of backend/app/channels/templates.py, as its calls of `_register`
-- fill it.
use realty_lead_ai_agent.Common.{ℕ, zero, suc, String, Option, none, some}
use realty_lead_ai_agent.Models.Enums.{Language}

pub record MessageTemplate : Type 0 where
  pub name : String
  pub language : Language
  pub body : String

abbrev template : String → Language → String → Option MessageTemplate
template name language body = some (record { name = name; language = language; body = body })

-- The English templates, by attempt.
abbrev english_templates : ℕ → Option MessageTemplate
english_templates zero = none
english_templates (suc zero) =
    template "followup_day_1" Language.english
      "Hi {{1}}, just checking in on your property enquiry. Happy to answer any questions or line up a viewing whenever suits you. — {{2}}'s assistant. Reply STOP to opt out."
english_templates (suc (suc zero)) =
    template "followup_day_3" Language.english
      "Hi {{1}}, a couple of options in your range have come up since we last spoke. Want me to send the details? — {{2}}'s assistant. Reply STOP to opt out."
english_templates (suc (suc (suc zero))) =
    template "followup_day_7" Language.english
      "Hi {{1}}, still looking? I can shortlist a few places that match what you had in mind. — {{2}}'s assistant. Reply STOP to opt out."
english_templates (suc (suc (suc (suc zero)))) =
    template "followup_day_14" Language.english
      "Hi {{1}}, no rush at all — if your plans have changed just let me know and I'll stop checking in. — {{2}}'s assistant. Reply STOP to opt out."
english_templates (suc (suc (suc (suc (suc zero))))) =
    template "followup_monthly" Language.english
      "Hi {{1}}, checking in once a month in case anything has changed. New listings come up regularly. — {{2}}'s assistant. Reply STOP to opt out."
english_templates (suc (suc (suc (suc (suc (suc zero)))))) =
    template "followup_final" Language.english
      "Hi {{1}}, this is my last check-in so I'm not cluttering your inbox. Message any time if you start looking again. — {{2}}'s assistant."
english_templates (suc (suc (suc (suc (suc (suc (suc n))))))) = none

-- The Hindi templates, by attempt.
abbrev hindi_templates : ℕ → Option MessageTemplate
hindi_templates zero = none
hindi_templates (suc zero) =
    template "followup_day_1_hi" Language.hindi
      "नमस्ते {{1}}, आपकी प्रॉपर्टी पूछताछ के बारे में जानना चाहता था। कोई भी सवाल हो या विज़िट करनी हो तो बताइए। — {{2}} का असिस्टेंट। रोकने के लिए STOP भेजें।"
hindi_templates (suc (suc zero)) =
    template "followup_day_3_hi" Language.hindi
      "नमस्ते {{1}}, आपके बजट में कुछ नए विकल्प आए हैं। जानकारी भेजूँ? — {{2}} का असिस्टेंट। रोकने के लिए STOP भेजें।"
hindi_templates (suc (suc (suc zero))) =
    template "followup_day_7_hi" Language.hindi
      "नमस्ते {{1}}, अभी भी देख रहे हैं? आपकी पसंद के हिसाब से कुछ विकल्प चुन सकता हूँ। — {{2}} का असिस्टेंट। रोकने के लिए STOP भेजें।"
hindi_templates (suc (suc (suc (suc zero)))) =
    template "followup_day_14_hi" Language.hindi
      "नमस्ते {{1}}, कोई जल्दी नहीं — अगर योजना बदल गई हो तो बता दीजिए, मैं संदेश भेजना बंद कर दूँगा। — {{2}} का असिस्टेंट। रोकने के लिए STOP भेजें।"
hindi_templates (suc (suc (suc (suc (suc zero))))) =
    template "followup_monthly_hi" Language.hindi
      "नमस्ते {{1}}, महीने में एक बार हाल पूछ रहा हूँ। नई प्रॉपर्टी आती रहती हैं। — {{2}} का असिस्टेंट। रोकने के लिए STOP भेजें।"
hindi_templates (suc (suc (suc (suc (suc (suc zero)))))) =
    template "followup_final_hi" Language.hindi
      "नमस्ते {{1}}, यह मेरा आखिरी संदेश है। दोबारा देखना शुरू करें तो कभी भी लिखिए। — {{2}} का असिस्टेंट।"
hindi_templates (suc (suc (suc (suc (suc (suc (suc n))))))) = none

-- The Gujarati templates, by attempt.
abbrev gujarati_templates : ℕ → Option MessageTemplate
gujarati_templates zero = none
gujarati_templates (suc zero) =
    template "followup_day_1_gu" Language.gujarati
      "નમસ્તે {{1}}, તમારી પ્રોપર્ટી પૂછપરછ વિશે જાણવું હતું. કોઈ પ્રશ્ન હોય કે વિઝિટ ગોઠવવી હોય તો કહેજો. — {{2}}નો સહાયક. બંધ કરવા STOP લખો."
gujarati_templates (suc (suc zero)) =
    template "followup_day_3_gu" Language.gujarati
      "નમસ્તે {{1}}, તમારા બજેટમાં નવા વિકલ્પો આવ્યા છે. વિગતો મોકલું? — {{2}}નો સહાયક. બંધ કરવા STOP લખો."
gujarati_templates (suc (suc (suc zero))) =
    template "followup_day_7_gu" Language.gujarati
      "નમસ્તે {{1}}, હજી શોધી રહ્યા છો? તમારી પસંદ પ્રમાણે થોડા વિકલ્પો પસંદ કરી શકું. — {{2}}નો સહાયક. બંધ કરવા STOP લખો."
gujarati_templates (suc (suc (suc (suc zero)))) =
    template "followup_day_14_gu" Language.gujarati
      "નમસ્તે {{1}}, ઉતાવળ નથી — યોજના બદલાઈ હોય તો જણાવજો, હું સંદેશા બંધ કરી દઈશ. — {{2}}નો સહાયક. બંધ કરવા STOP લખો."
gujarati_templates (suc (suc (suc (suc (suc zero))))) =
    template "followup_monthly_gu" Language.gujarati
      "નમસ્તે {{1}}, મહિને એક વાર ખબર પૂછું છું. નવી પ્રોપર્ટી આવતી રહે છે. — {{2}}નો સહાયક. બંધ કરવા STOP લખો."
gujarati_templates (suc (suc (suc (suc (suc (suc zero)))))) =
    template "followup_final_gu" Language.gujarati
      "નમસ્તે {{1}}, આ મારો છેલ્લો સંદેશ છે. ફરી શોધવાનું શરૂ કરો ત્યારે લખજો. — {{2}}નો સહાયક."
gujarati_templates (suc (suc (suc (suc (suc (suc (suc n))))))) = none

-- `FOLLOW_UP_TEMPLATES.get((attempt, language))`
unfoldable pub follow_up_templates : ℕ → Language → Option MessageTemplate
follow_up_templates attempt Language.english = english_templates attempt
follow_up_templates attempt Language.hindi = hindi_templates attempt
follow_up_templates attempt Language.gujarati = gujarati_templates attempt
