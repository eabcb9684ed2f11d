-- ===== src/Certs/Domains.antt =====
-- `RAW_DOMAINS` of `bumper/utils/certs.py`.
use bumper.Base.{String, List, [], ◌∷◌}

abbrev pub raw_domains : List String
raw_domains =
    "a1zYhiMF5J3.iot-as-mqtt.cn-shanghai.aliyuncs.com" ∷ "mpush-api.aliyun.com"
    ∷ "sdk.openaccount.aliyun.com" ∷ "api.link.aliyun.com" ∷ "itls.eu-central-1.aliyuncs.com"
    ∷ "eu-central-1.aliyuncs.com" ∷ "ca.robotww.ecouser.net" ∷ "ca.robotcn.ecouser.net"
    ∷ "robotcn.ecouser.net" ∷ "dc.robotcn.ecouser.net" ∷ "area.robotww.ecouser.net"
    ∷ "area.robotcn.ecouser.net" ∷ "autodiscover.ecovacs.com" ∷ "cfjump.ecovacs.com"
    ∷ "checkout-au.ecovacs.com" ∷ "checkout-test.ecovacs.com" ∷ "checkout-uk.ecovacs.com"
    ∷ "comingsoon.ecovacs.com" ∷ "czjquw.ecovacs.com" ∷ "ecovacs.com" ∷ "eml.ecovacs.com"
    ∷ "www.eml.ecovacs.com" ∷ "exchange.ecovacs.com" ∷ "gl-de-api.ecovacs.com"
    ∷ "gl-de-openapi.ecovacs.com" ∷ "gl-us-pub.ecovacs.com" ∷ "mail.ecovacs.com"
    ∷ "parts-apac.ecovacs.com" ∷ "qdbdrg.ecovacs.com" ∷ "recommender.ecovacs.com"
    ∷ "sa-eu-datasink.ecovacs.com" ∷ "site-static.ecovacs.com" ∷ "store-de.ecovacs.com"
    ∷ "store-fr.ecovacs.com" ∷ "storehk.ecovacs.com" ∷ "store-it.ecovacs.com"
    ∷ "store-jp.ecovacs.com" ∷ "storesg.ecovacs.com" ∷ "store-uk.ecovacs.com" ∷ "usshop.ecovacs.com"
    ∷ "vpn.ecovacs.com" ∷ "dc-cn.bizcn.ecouser.net" ∷ "dc-as.bizww.ecouser.net"
    ∷ "dc-eu.bizww.ecouser.net" ∷ "dc-na.bizww.ecouser.net" ∷ "dc-cn.app.cn.ecouser.net"
    ∷ "area.cn.ecouser.net" ∷ "dc-cn.base.cn.ecouser.net" ∷ "cloud-ui.dc-cn.cloud.cn.ecouser.net"
    ∷ "dc-cn.cloud.cn.ecouser.net" ∷ "cn.ecouser.net" ∷ "cn.dc.cn.ecouser.net"
    ∷ "dc-cn.cn.ecouser.net" ∷ "dc.cn.ecouser.net" ∷ "dc-hq.cn.ecouser.net"
    ∷ "dc-cn.ngiot.cn.ecouser.net" ∷ "dc-cn.rapp.cn.ecouser.net" ∷ "dc-cn.rop.cn.ecouser.net"
    ∷ "dc.ecouser.net" ∷ "dev.ecouser.net" ∷ "dc-hq.devhq.ecouser.net" ∷ "dl.ecouser.net"
    ∷ "ecouser.net" ∷ "lb.ecouser.net" ∷ "lbo.ecouser.net" ∷ "msg-eu.ecouser.net"
    ∷ "portal-ww.ecouser.net" ∷ "portal-ww-qa1.ecouser.net" ∷ "portal-ww-qa.ecouser.net"
    ∷ "jmq-ngiot-eu.dc.robotww.ecouser.net" ∷ "api-app.ww.ecouser.net" ∷ "dc-as.app.ww.ecouser.net"
    ∷ "dc-eu.app.ww.ecouser.net" ∷ "dc-na.app.ww.ecouser.net" ∷ "area.ww.ecouser.net"
    ∷ "dc-as.base.ww.ecouser.net" ∷ "dc-eu.base.ww.ecouser.net" ∷ "dc-na.base.ww.ecouser.net"
    ∷ "cloud-ui.dc-as.cloud.ww.ecouser.net" ∷ "dc-as.cloud.ww.ecouser.net"
    ∷ "cloud-ui.dc-eu.cloud.ww.ecouser.net" ∷ "dc-eu.cloud.ww.ecouser.net"
    ∷ "cloud-ui.dc-na.cloud.ww.ecouser.net" ∷ "dc-na.cloud.ww.ecouser.net" ∷ "as.dc.ww.ecouser.net"
    ∷ "dc-as.ww.ecouser.net" ∷ "dc-aus.ww.ecouser.net" ∷ "dc.ww.ecouser.net"
    ∷ "api-app.dc-eu.ww.ecouser.net" ∷ "api-base.dc-eu.ww.ecouser.net"
    ∷ "api-ngiot.dc-eu.ww.ecouser.net" ∷ "dc-eu.ww.ecouser.net" ∷ "eis-nlp.dc-eu.ww.ecouser.net"
    ∷ "eu.dc.ww.ecouser.net" ∷ "users-base.dc-eu.ww.ecouser.net"
    ∷ "codepush-base.dc-na.ww.ecouser.net" ∷ "dc-na.ww.ecouser.net" ∷ "na.dc.ww.ecouser.net"
    ∷ "dc-as.ngiot.ww.ecouser.net" ∷ "dc-eu.ngiot.ww.ecouser.net" ∷ "dc-na.ngiot.ww.ecouser.net"
    ∷ "dc-as.rapp.ww.ecouser.net" ∷ "dc-eu.rapp.ww.ecouser.net" ∷ "dc-na.rapp.ww.ecouser.net"
    ∷ "dc-as.rop.ww.ecouser.net" ∷ "dc-eu.rop.ww.ecouser.net" ∷ "dc-na.rop.ww.ecouser.net"
    ∷ "ww.ecouser.net" ∷ "www.ecouser.net" ∷ []
