-- ===== src/Match/Psl/Rules.antt =====
-- The rule sets of src/match/psl.ts.
use fire_sync.Prelude.{String, List, [], ◌∷◌}

abbrev pub public_suffixes : List String
public_suffixes =
    "co.uk" ∷ "org.uk" ∷ "me.uk" ∷ "ltd.uk" ∷ "plc.uk" ∷ "net.uk" ∷ "sch.uk" ∷ "ac.uk" ∷ "gov.uk"
    ∷ "nhs.uk" ∷ "police.uk" ∷ "mod.uk" ∷ "gov.ie" ∷ "co.at" ∷ "or.at" ∷ "ac.at" ∷ "gv.at"
    ∷ "com.de" ∷ "com.es" ∷ "nom.es" ∷ "org.es" ∷ "gob.es" ∷ "edu.es" ∷ "com.pl" ∷ "net.pl"
    ∷ "org.pl" ∷ "edu.pl" ∷ "gov.pl" ∷ "waw.pl" ∷ "krakow.pl" ∷ "wroc.pl" ∷ "gda.pl" ∷ "poznan.pl"
    ∷ "com.pt" ∷ "edu.pt" ∷ "gov.pt" ∷ "org.pt" ∷ "com.gr" ∷ "edu.gr" ∷ "net.gr" ∷ "org.gr"
    ∷ "gov.gr" ∷ "com.ro" ∷ "org.ro" ∷ "gov.ro" ∷ "com.hr" ∷ "com.ua" ∷ "net.ua" ∷ "org.ua"
    ∷ "com.cy" ∷ "com.mt" ∷ "co.rs" ∷ "org.rs" ∷ "com.se" ∷ "org.se" ∷ "priv.no" ∷ "co.no"
    ∷ "com.br" ∷ "net.br" ∷ "org.br" ∷ "gov.br" ∷ "edu.br" ∷ "com.ar" ∷ "net.ar" ∷ "org.ar"
    ∷ "gob.ar" ∷ "com.mx" ∷ "org.mx" ∷ "gob.mx" ∷ "edu.mx" ∷ "com.co" ∷ "net.co" ∷ "gov.co"
    ∷ "edu.co" ∷ "com.pe" ∷ "com.ve" ∷ "com.uy" ∷ "com.ec" ∷ "gc.ca" ∷ "on.ca" ∷ "qc.ca" ∷ "bc.ca"
    ∷ "ab.ca" ∷ "co.jp" ∷ "or.jp" ∷ "ne.jp" ∷ "ac.jp" ∷ "go.jp" ∷ "ad.jp" ∷ "ed.jp" ∷ "gr.jp"
    ∷ "lg.jp" ∷ "co.kr" ∷ "or.kr" ∷ "ne.kr" ∷ "go.kr" ∷ "re.kr" ∷ "pe.kr" ∷ "ac.kr" ∷ "com.cn"
    ∷ "net.cn" ∷ "org.cn" ∷ "gov.cn" ∷ "edu.cn" ∷ "ac.cn" ∷ "com.hk" ∷ "org.hk" ∷ "edu.hk"
    ∷ "gov.hk" ∷ "idv.hk" ∷ "com.tw" ∷ "org.tw" ∷ "edu.tw" ∷ "gov.tw" ∷ "net.tw" ∷ "com.sg"
    ∷ "edu.sg" ∷ "gov.sg" ∷ "org.sg" ∷ "per.sg" ∷ "com.my" ∷ "net.my" ∷ "org.my" ∷ "gov.my"
    ∷ "edu.my" ∷ "com.ph" ∷ "net.ph" ∷ "org.ph" ∷ "gov.ph" ∷ "co.th" ∷ "in.th" ∷ "ac.th" ∷ "go.th"
    ∷ "or.th" ∷ "co.id" ∷ "web.id" ∷ "or.id" ∷ "ac.id" ∷ "go.id" ∷ "com.vn" ∷ "edu.vn" ∷ "gov.vn"
    ∷ "net.vn" ∷ "org.vn" ∷ "co.in" ∷ "net.in" ∷ "org.in" ∷ "gen.in" ∷ "firm.in" ∷ "ind.in"
    ∷ "ac.in" ∷ "edu.in" ∷ "gov.in" ∷ "res.in" ∷ "com.pk" ∷ "com.bd" ∷ "com.np" ∷ "com.lk"
    ∷ "com.au" ∷ "net.au" ∷ "org.au" ∷ "edu.au" ∷ "gov.au" ∷ "asn.au" ∷ "id.au" ∷ "co.nz" ∷ "net.nz"
    ∷ "org.nz" ∷ "govt.nz" ∷ "ac.nz" ∷ "school.nz" ∷ "geek.nz" ∷ "kiwi.nz" ∷ "co.il" ∷ "org.il"
    ∷ "net.il" ∷ "ac.il" ∷ "gov.il" ∷ "co.za" ∷ "org.za" ∷ "net.za" ∷ "gov.za" ∷ "ac.za" ∷ "web.za"
    ∷ "com.ng" ∷ "com.gh" ∷ "co.ke" ∷ "or.ke" ∷ "ac.ke" ∷ "com.eg" ∷ "com.sa" ∷ "com.tr" ∷ "net.tr"
    ∷ "org.tr" ∷ "gov.tr" ∷ "edu.tr" ∷ "com.ae" ∷ "ae.org" ∷ "com.qa" ∷ "com.kw" ∷ "com.us"
    ∷ "org.us" ∷ "gov.us" ∷ "k12.ca.us" ∷ "ny.us" ∷ "ca.us" ∷ "github.io" ∷ "gitlab.io"
    ∷ "pages.dev" ∷ "workers.dev" ∷ "vercel.app" ∷ "netlify.app" ∷ "firebaseapp.com" ∷ "web.app"
    ∷ "herokuapp.com" ∷ "azurewebsites.net" ∷ "cloudfront.net" ∷ "amazonaws.com"
    ∷ "s3.amazonaws.com" ∷ "appspot.com" ∷ "blogspot.com" ∷ "wordpress.com" ∷ "glitch.me"
    ∷ "repl.co" ∷ "onrender.com" ∷ "fly.dev" ∷ "ngrok.io" ∷ "ngrok-free.app" ∷ "trycloudflare.com"
    ∷ "sharepoint.com" ∷ "myshopify.com" ∷ "zendesk.com" ∷ "atlassian.net" ∷ "notion.site"
    ∷ "squarespace.com" ∷ "weebly.com" ∷ "webflow.io" ∷ []

-- `*.` before each: what stands one level under it is a suffix.
abbrev pub wildcard_suffixes : List String
wildcard_suffixes =
    "ck" ∷ "er" ∷ "jm" ∷ "kh" ∷ "mm" ∷ "np" ∷ "pg" ∷ "bd" ∷ "fj" ∷ "et" ∷ "compute.amazonaws.com"
    ∷ "compute-1.amazonaws.com" ∷ "elb.amazonaws.com" ∷ "sk.ca" ∷ "platform.sh"
    ∷ "cdn.prod.atlassian-dev.net" ∷ []

-- No suffixes, whatever wildcard there is.
abbrev pub suffix_exceptions : List String
suffix_exceptions = "www.ck" ∷ []
